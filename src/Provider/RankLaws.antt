-- ===== src/Provider/RankLaws.antt =====
-- The order of the members of a pool, and whom its best one is.
use claudeq.Prelude.{
  ℕ, ◌≤◌, ◌≡◌, refl, ap, ◌∙◌, Bool, true, false, Option, none, some, List, [], ◌∷◌, ltb, arith, inl,
  inr, Bool-cases, All,
}
use mathlib.Core.List.{Perm}
use claudeq.Prelude.Floats.{Floats}
use claudeq.Prelude.Sort.{insert, sort, sort-perm}
use claudeq.Prelude.Assoc.{Assoc}
use claudeq.Provider.Model.{Instance, Pool, PoolMember, MemberScore, RankInputs, Note, LimitWindow}
use claudeq.Provider.Set.{Set, find, lookup}
use claudeq.Provider.FallbackLaws.{find-some}
use claudeq.Provider.Score.{score_member, can_take, with_windows, scored}
use claudeq.Provider.Rank.{score_found, scores_of, order_from, ranks_before, rank_pool}

module _ (fl : Floats) where
  -- No member stands behind one of a higher tier.
  abbrev pub ByTier : List (MemberScore fl) → Type 0
  ByTier [] = Unit
  ByTier (s ∷ ss) = All (λ t. s.tier ≤ t.tier) ss × ByTier ss

  module _ (order : Assoc ℕ) where
    ranks_before-tier : (a b : MemberScore fl) → ranks_before fl order a b ≡ true → a.tier ≤ b.tier
    unfolding ranks_before
    ranks_before-tier a b h = ground (arith, h)

    not_before-tier : (a b : MemberScore fl) → ranks_before fl order a b ≡ false → b.tier ≤ a.tier
    unfolding ranks_before
    not_before-tier a b h = ground (arith, h)

    lower_tier :
        (n : ℕ) (s : MemberScore fl) (ss : List (MemberScore fl))
        → n ≤ s.tier
        → All (λ t. s.tier ≤ t.tier) ss
        → All (λ t. n ≤ t.tier) ss
    lower_tier n s [] h p = tt
    lower_tier n s (t ∷ ss) h p = (omega (arith, h, p.0), lower_tier n s ss h p.1)

  module _ (less : MemberScore fl → MemberScore fl → Bool) (P : MemberScore fl → Type 0) where
    insert-All :
        (s : MemberScore fl) (ss : List (MemberScore fl))
        → P s
        → All P ss
        → All P (insert less s ss)
    unfolding insert
    insert-All s [] p q = (p, tt)
    insert-All s (t ∷ ss) p q = elim (Bool-cases (less t s)) [
      | inl e ↦ rw e (q.0, insert-All s ss p q.1)
      | inr e ↦ rw e (p, q)
    ]

    sort-All : (ss : List (MemberScore fl)) → All P ss → All P (sort less ss)
    unfolding sort
    sort-All [] p = tt
    sort-All (s ∷ ss) p = insert-All s (sort less ss) p.0 (sort-All ss p.1)

  insert-ByTier :
      (order : Assoc ℕ) (s : MemberScore fl) (ss : List (MemberScore fl))
      → ByTier ss
      → ByTier (insert (ranks_before fl order) s ss)
  unfolding insert
  insert-ByTier order s [] h = (tt, tt)
  insert-ByTier order s (t ∷ ss) h = elim (Bool-cases (ranks_before fl order t s)) [
    | inl e ↦ rw e (
      insert-All (ranks_before fl order) (λ u. t.tier ≤ u.tier) s ss (ranks_before-tier order t s e)
          h.0,
      insert-ByTier order s ss h.1,
    )
    | inr e ↦ rw e (
      (not_before-tier order t s e, lower_tier order s.tier t ss (not_before-tier order t s e) h.0),
      h,
    )
  ]

  sort-ByTier :
      (order : Assoc ℕ) (ss : List (MemberScore fl)) → ByTier (sort (ranks_before fl order) ss)
  unfolding sort
  sort-ByTier order [] = tt
  sort-ByTier order (s ∷ ss) =
      insert-ByTier order s (sort (ranks_before fl order) ss) (sort-ByTier order ss)

  -- The ranking of a pool is the scores of its members in another order, and no member stands behind
  -- one of a higher tier, whatever the floating-point scores are.
  pub rank_pool-ByTier :
      (set : Set fl) (p : Pool fl) (i : RankInputs fl)
      → Perm (rank_pool fl set p i) (scores_of fl set p.members i) × ByTier (rank_pool fl set p i)
  unfolding rank_pool
  rank_pool-ByTier set p i =
      let scores = scores_of fl set p.members i in
      let order = order_from fl 0 scores [] in
      (sort-perm (ranks_before fl order) scores, sort-ByTier order scores)

  -- A member that can take work is configured and usable.
  abbrev pub CanServe : Set fl → RankInputs fl → MemberScore fl → Type 0
  CanServe set i s =
      ltb s.tier 3 ≡ true
      → (inst : Instance) × ((lookup fl set s.provider_id ≡ some inst)
          × ((can_take fl inst.enabled i.usable inst).0 ≡ true))

  with_windows-id :
      (i : RankInputs fl) (s : MemberScore fl) (read : Bool) (long short : Option (LimitWindow fl))
      → (with_windows fl i s read long short).provider_id ≡ s.provider_id
  with_windows-id i s read none short = refl
  with_windows-id i s true (some w) short = refl
  with_windows-id i s false (some w) short = refl

  scored-id :
      (take : Bool) (why : Note fl) (i : RankInputs fl) (s : MemberScore fl) (read : Bool)
      (long short : Option (LimitWindow fl))
      → (scored fl take why i s read long short).provider_id ≡ s.provider_id
  scored-id true why i s read long short = with_windows-id i s read long short
  scored-id false why i s read long short = refl

  scored-tier :
      (take : Bool) (why : Note fl) (i : RankInputs fl) (s : MemberScore fl) (read : Bool)
      (long short : Option (LimitWindow fl))
      → ltb (scored fl take why i s read long short).tier 3 ≡ true
      → take ≡ true
  scored-tier true why i s read long short h = refl
  scored-tier false why i s read long short h = h

  score_member-id :
      (inst : Instance) (m : PoolMember fl) (i : RankInputs fl)
      → (score_member fl inst m i).provider_id ≡ inst.id
  unfolding score_member
  score_member-id inst m i = scored-id _ _ i _ _ _ _

  score_member-tier :
      (inst : Instance) (m : PoolMember fl) (i : RankInputs fl)
      → ltb (score_member fl inst m i).tier 3 ≡ true
      → (can_take fl inst.enabled i.usable inst).0 ≡ true
  unfolding score_member
  score_member-tier inst m i h = scored-tier _ _ i _ _ _ _ h

  score_found-CanServe :
      (set : Set fl) (i : RankInputs fl) (m : PoolMember fl) (o : Option Instance)
      → lookup fl set m.provider_id ≡ o
      → CanServe set i (score_found fl o m i)
  unfolding find lookup
  score_found-CanServe set i m none e h = cc
  score_found-CanServe set i m (some inst) e h = (
    inst,
    (
      ap (λ id. lookup fl set id)
            (score_member-id inst m i ∙ find-some m.provider_id set.instances inst e)
          ∙ e,
      score_member-tier inst m i h,
    ),
  )

  scores_of-CanServe :
      (set : Set fl) (i : RankInputs fl) (ms : List (PoolMember fl))
      → All (CanServe set i) (scores_of fl set ms i)
  unfolding scores_of
  scores_of-CanServe set i [] = tt
  scores_of-CanServe set i (m ∷ ms) =
      (score_found-CanServe set i m (lookup fl set m.provider_id) refl, scores_of-CanServe set i ms)

  -- Every ranked member that can take work is configured and usable.
  pub rank_pool-CanServe :
      (set : Set fl) (p : Pool fl) (i : RankInputs fl) → All (CanServe set i) (rank_pool fl set p i)
  unfolding rank_pool
  rank_pool-CanServe set p i =
      let scores = scores_of fl set p.members i in
      sort-All (ranks_before fl (order_from fl 0 scores [])) (CanServe set i) scores
        (scores_of-CanServe set i p.members)
