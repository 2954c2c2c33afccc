-- ===== src/Provider/BackfillLaws.antt =====
-- Where backfill work may run.
use claudeq.Prelude.{
  ◌≡◌, refl, ap, sym, ◌∙◌, Bool, true, false, not, ◌&&◌, Option, none, some, List, [], ◌∷◌, ◌==◌,
  if◌then◌else◌, is_empty, arith, ltb, first, keep_if, All,
}
use mathlib.Core.Path.{subst}
use claudeq.Prelude.Floats.{Floats}
use claudeq.Prelude.Result.{Result, ok, err, ◌>>=◌}
use claudeq.Provider.Model.{Instance, Pool, MemberScore, Note, RankInputs, cannot_run}
use claudeq.Provider.Set.{Set, lookup, lookup_pool, pool_members}
use claudeq.Provider.Score.{can_take}
use claudeq.Provider.Rank.{rank_pool}
use claudeq.Provider.RankLaws.{CanServe, rank_pool-CanServe}
use claudeq.Provider.Selection.{
  Selection, Resolved, SelectProblem, Availability, is_out, usable, check_spare, pool_inputs,
  is_spare, backfill_work,
}
use claudeq.Provider.Resolve.{
  resolve_pool, resolve_provider, resolve_available, place, spared, in_pool, choose_member,
  best_score, by_best, by_session, or_first, keeps_session, is_usable,
}

first-passes :
    (p : Instance → Bool) (xs : List Instance) (x : Instance) → first p xs ≡ some x → p x ≡ true
unfolding first
first-passes p [] x h = cc
first-passes p (y ∷ ys) x h = ground (arith, h, first-passes p ys x)

last_of_four : (a b c d : Bool) → (a && b && c && d) ≡ true → d ≡ true
last_of_four a b c d h = ground (arith, h)

if_true {ℓ} : {A : Type ℓ} (b : Bool) (x y : A) → b ≡ true → (if b then x else y) ≡ x
if_true b x y h = rw h refl

module _ (fl : Floats) (s : Set fl) (sel : Selection fl) (av : Availability fl)
    (backfill : sel.backfill ≡ true) where
  -- A result that runs on a provider whose allowance would go unused.
  abbrev pub GoesSpare : Result (SelectProblem fl) (Resolved fl) → Type 0
  GoesSpare (ok r) = is_spare fl av sel.min_urgency r.inst ≡ true
  GoesSpare (err e) = Unit

  by_spare :
      (b : Bool) (n : Note fl)
      → (if◌then◌else◌ {A = Bool × Note fl} (not b) (false, n) (true, cannot_run)).0 ≡ true
      → b ≡ true
  by_spare true n h = refl
  by_spare false n h = h

  backfill_work-is_spare :
      (inst : Instance)
      → (backfill_work fl av sel.min_urgency inst).0 ≡ true
      → is_spare fl av sel.min_urgency inst ≡ true
  unfolding backfill_work
  backfill_work-is_spare inst h = by_spare (is_spare fl av sel.min_urgency inst) _ h

  pool_inputs-usable : (pool_inputs fl sel av).usable ≡ some (backfill_work fl av sel.min_urgency)
  unfolding pool_inputs
  pool_inputs-usable = ap (λ (i : RankInputs fl). i.usable) (if_true sel.backfill _ _ backfill)

  usable-is_spare :
      (inst : Instance)
      → is_usable fl (pool_inputs fl sel av).usable inst ≡ true
      → is_spare fl av sel.min_urgency inst ≡ true
  usable-is_spare inst h =
      backfill_work-is_spare inst (sym (ap (λ u. is_usable fl u inst) pool_inputs-usable) ∙ h)

  enabled_work :
      (b : Bool) (n : Bool × Note fl) (m : Note fl)
      → (if◌then◌else◌ {A = Bool × Note fl} b n (false, m)).0 ≡ true
      → n.0 ≡ true
  enabled_work true n m h = h
  enabled_work false n m h = cc

  can_take-is_spare :
      (inst : Instance)
      → (can_take fl inst.enabled (pool_inputs fl sel av).usable inst).0 ≡ true
      → is_spare fl av sel.min_urgency inst ≡ true
  can_take-is_spare inst h =
      let taken = sym (ap (λ u. (can_take fl inst.enabled u inst).0) pool_inputs-usable) ∙ h in
      backfill_work-is_spare inst
        (enabled_work inst.enabled (backfill_work fl av sel.min_urgency inst) _ taken)

  keeps_session-is_spare :
      (inst : Instance)
      → keeps_session fl sel av inst ≡ true
      → is_spare fl av sel.min_urgency inst ≡ true
  unfolding keeps_session
  keeps_session-is_spare inst h =
      usable-is_spare inst
        (last_of_four (inst.id == sel.prefer) (not (is_out fl av inst.id)) (usable fl av inst) _ h)

  resort-GoesSpare :
      (b : Bool) (e : SelectProblem fl) (r : Resolved fl)
      → b ≡ true
      → GoesSpare (if b then err e else ok r)
  resort-GoesSpare true e r h = tt
  resort-GoesSpare false e r h = cc

  -- The best member, where there is one, is configured and can take work.
  abbrev Serves : Option (MemberScore fl) → Type 0
  Serves none = Unit
  Serves (some best) =
      (inst : Instance) × ((lookup fl s best.provider_id ≡ some inst)
        × ((can_take fl inst.enabled (pool_inputs fl sel av).usable inst).0 ≡ true))

  test-Serves :
      (b : Bool) (best : MemberScore fl)
      → (b ≡ true → Serves (some best))
      → Serves (if b then some best else none)
  test-Serves true best h = h refl
  test-Serves false best h = tt

  best_score-Serves :
      (scores : List (MemberScore fl))
      → All (CanServe fl s (pool_inputs fl sel av)) scores
      → Serves (best_score fl scores)
  best_score-Serves [] h = tt
  best_score-Serves (best ∷ scores) h = test-Serves (ltb best.tier 3) best h.0

  by_best-GoesSpare :
      (p : Pool fl) (scores : List (MemberScore fl)) (head : Instance) (enabled : List Instance)
      (o : Option (MemberScore fl))
      → Serves o
      → GoesSpare (by_best fl s sel av p scores head enabled o)
  by_best-GoesSpare p scores head enabled none h = resort-GoesSpare sel.backfill _ _ backfill
  by_best-GoesSpare p scores head enabled (some best) (inst, (l, takes)) =
      ap (λ o. is_spare fl av sel.min_urgency (or_first fl o head)) l ∙ can_take-is_spare inst takes

  by_session-GoesSpare :
      (p : Pool fl) (head : Instance) (enabled : List Instance) (o : Option Instance)
      → first (keeps_session fl sel av) enabled ≡ o
      → GoesSpare (by_session fl s sel av p head enabled o)
  by_session-GoesSpare p head enabled (some inst) e =
      keeps_session-is_spare inst (first-passes (keeps_session fl sel av) enabled inst e)
  by_session-GoesSpare p head enabled none e =
      let scores = rank_pool fl s p (pool_inputs fl sel av) in
      by_best-GoesSpare p scores head enabled (best_score fl scores)
        (best_score-Serves scores (rank_pool-CanServe fl s p (pool_inputs fl sel av)))

  in_pool-GoesSpare : (p : Option (Pool fl)) → GoesSpare (in_pool fl s sel av p)
  in_pool-GoesSpare none = tt
  in_pool-GoesSpare (some p) = chosen p (keep_if (λ inst. inst.enabled) (pool_members fl s p))
    where
      chosen :
          (p : Pool fl) (enabled : List Instance) → GoesSpare (choose_member fl s sel av p enabled)
      chosen p [] = tt
      chosen p (head ∷ enabled) = by_session-GoesSpare p head (head ∷ enabled) _ refl

  -- `checkSpare` lets only a spare provider through.
  checked-GoesSpare :
      (r : Resolved fl) (b : Bool) (e : SelectProblem fl)
      → is_spare fl av sel.min_urgency r.inst ≡ b
      → GoesSpare (spared fl r (if b then none else some e))
  checked-GoesSpare r true e h = h
  checked-GoesSpare r false e h = tt

  place-GoesSpare : (r : Resolved fl) → GoesSpare (place fl s sel av r)
  unfolding check_spare
  place-GoesSpare r =
      subst GoesSpare (sym (if_true sel.backfill _ _ backfill))
        (checked-GoesSpare r (is_spare fl av sel.min_urgency r.inst) _ refl)

  bound-GoesSpare :
      (res : Result (SelectProblem fl) (Resolved fl)) → GoesSpare (res >>= place fl s sel av)
  bound-GoesSpare (err e) = tt
  bound-GoesSpare (ok r) = place-GoesSpare r

  resolve_pool-GoesSpare : GoesSpare (resolve_pool fl s sel av)
  unfolding resolve_pool
  resolve_pool-GoesSpare = in_pool-GoesSpare (lookup_pool fl s sel.pool_id)

  choice-GoesSpare :
      (b : Bool) (x y : Result (SelectProblem fl) (Resolved fl))
      → GoesSpare x
      → GoesSpare y
      → GoesSpare (if b then x else y)
  choice-GoesSpare true x y p q = p
  choice-GoesSpare false x y p q = q

  -- Backfill work, on a provider or in a pool, with an interrupted session or without, resolves only
  -- to a provider whose allowance is at risk of going unused, or to an error.
  pub resolve_available-GoesSpare : GoesSpare (resolve_available fl s sel av)
  unfolding resolve_available
  resolve_available-GoesSpare =
      choice-GoesSpare (is_empty sel.pool_id) (resolve_provider fl s sel >>= place fl s sel av)
        (resolve_pool fl s sel av) (bound-GoesSpare (resolve_provider fl s sel))
        resolve_pool-GoesSpare
