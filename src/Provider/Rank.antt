-- ===== src/Provider/Rank.antt =====
-- `RankPool` of internal/provider/pool.go.
use claudeq.Prelude.{
  ℕ, ◌+◌, Bool, not, Option, none, some, List, [], ◌∷◌, eqb, ltb, if◌then◌else◌, map,
}
use claudeq.Prelude.Assoc.{Assoc, insert}
use claudeq.Prelude.Assoc
use claudeq.Prelude.Floats.{Floats, of_ℕ}
use claudeq.Prelude.Sort.{sort}
use claudeq.Provider.Model.{Instance, Pool, PoolMember, MemberScore, RankInputs, not_configured}
use claudeq.Provider.Set.{Set, lookup}
use claudeq.Provider.Score.{score_member}

module _ (fl : Floats) where
  open fl use {F, of_ratio, sub, mul, div, larger, lt, le, same}

  -- A member that nothing is configured for ranks last.
  abbrev pub score_found : Option Instance → PoolMember fl → RankInputs fl → MemberScore fl
  score_found none m i = record {
    provider_id = m.provider_id;
    name = m.provider_id;
    tier = 3;
    urgency = of_ℕ fl 0;
    score = of_ℕ fl 0;
    weight = of_ℕ fl 0;
    week_free = of_ℕ fl 0;
    resets_at = none;
    running = 0;
    note = not_configured;
  }
  score_found (some inst) m i = score_member fl inst m i

  unfoldable pub scores_of : Set fl → List (PoolMember fl) → RankInputs fl → List (MemberScore fl)
  unfolding lookup score_member
  scores_of set ms i = map (λ m. score_found (lookup fl set m.provider_id) m i) ms

  -- `order[s.ProviderID] = i`
  unfoldable pub order_from : ℕ → List (MemberScore fl) → Assoc ℕ → Assoc ℕ
  unfolding insert
  order_from i [] order = order
  order_from i (s ∷ ss) order = order_from (i + 1) ss (insert s.provider_id i order)

  abbrev pub position : Option ℕ → ℕ
  position none = 0
  position (some i) = i

  unfoldable pub ranks_before : Assoc ℕ → MemberScore fl → MemberScore fl → Bool
  ranks_before order a b =
      if not (eqb a.tier b.tier)
      then ltb a.tier b.tier
      else if not (same a.score b.score)
      then lt b.score a.score
      else if not (eqb a.running b.running)
      then ltb a.running b.running
      else ltb (position (Assoc.lookup a.provider_id order))
          (position (Assoc.lookup b.provider_id order))

  unfoldable pub rank_pool : Set fl → Pool fl → RankInputs fl → List (MemberScore fl)
  unfolding scores_of order_from ranks_before sort Assoc.lookup
  rank_pool set p i =
      let scores = scores_of set p.members i in sort (ranks_before (order_from 0 scores [])) scores
