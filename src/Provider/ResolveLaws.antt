-- ===== src/Provider/ResolveLaws.antt =====
-- When a task runs on another provider than the one that it names.
use claudeq.Prelude.{
  not, ◌&&◌, ◌≡◌, refl, Bool, true, false, Option, none, some, List, [], ◌∷◌, if◌then◌else◌,
  is_empty, arith, inl, inr, ◌⊎◌, Bool-cases, keep_if, first, map,
}
use mathlib.Core.Path.{subst}
use claudeq.Prelude.Floats.{Floats}
use claudeq.Prelude.Result.{Result, ok, err, ◌>>=◌}
use claudeq.Provider.Model.{Instance, Pool, MemberScore, pool_label}
use claudeq.Provider.Set.{Set, lookup_pool, pool_members}
use claudeq.Provider.Rank.{rank_pool}
use claudeq.Provider.Fallback.{Walk, stopped, found, exhausted, fallback_model, fallback_walk}
use claudeq.Provider.FallbackLaws.{Passed, Next, IsRight, fallback_walk-IsRight}
use claudeq.Provider.Selection.{
  Selection, Resolved, PoolChoice, no_spare_in_pool, SelectProblem, Availability, is_out, usable,
  check_spare, pool_inputs,
}
use claudeq.Provider.Resolve.{
  resolve_pool, resolve_provider, resolve_available, takes_over, place, substitute, spared, in_pool,
  choose_member, by_best, by_session, run_on, or_first, best_score, keeps_session,
}

both_hold : (a b : Bool) → (a && not b) ≡ true → (a ≡ true) × (b ≡ false)
both_hold a b h = ground (arith, h)

module _ (fl : Floats) (s : Set fl) (sel : Selection fl) (av : Availability fl) where
  -- A result that a pool gives: the choice of this pool, which substitutes nothing.
  abbrev InPool : Pool fl → Result (SelectProblem fl) (Resolved fl) → Type 0
  InPool p (ok r) =
      (r.fallback_from ≡ none) × ((c : PoolChoice fl) × ((r.pool ≡ some c) × (c.pool ≡ p)))
  InPool p (err e) = Unit

  by_best-InPool :
      (p : Pool fl) (scores : List (MemberScore fl)) (head : Instance) (enabled : List Instance)
      (best : Option (MemberScore fl))
      → InPool p (by_best fl s sel av p scores head enabled best)
  by_best-InPool p scores head enabled (some best) = (refl, (_, (refl, refl)))
  by_best-InPool p scores head enabled none = by_kind sel.backfill
    where
      by_kind :
          (b : Bool)
          → InPool p (
              if b
              then err (no_spare_in_pool (pool_label fl p) (map (λ s. s.note) scores))
              else ok (
                  run_on fl sel p scores false
                    (or_first fl (first (λ inst. is_out fl av inst.id) enabled) head)))
      by_kind true = tt
      by_kind false = (refl, (_, (refl, refl)))

  choose_member-InPool :
      (p : Pool fl) (enabled : List Instance) → InPool p (choose_member fl s sel av p enabled)
  choose_member-InPool p [] = tt
  choose_member-InPool p (head ∷ enabled) =
      by_choice (first (keeps_session fl sel av) (head ∷ enabled))
    where
      by_choice :
          (o : Option Instance) → InPool p (by_session fl s sel av p head (head ∷ enabled) o)
      by_choice (some inst) = (refl, (_, (refl, refl)))
      by_choice none =
          by_best-InPool p (rank_pool fl s p (pool_inputs fl sel av)) head (head ∷ enabled)
            (best_score fl (rank_pool fl s p (pool_inputs fl sel av)))

  -- The result is what the selection asks for: the provider that it names, or the default, or, where
  -- it names a pool, a choice of this pool.
  abbrev pub AsAsked : Resolved fl → Type 0
  AsAsked r =
      ((is_empty sel.pool_id ≡ true) × (resolve_provider fl s sel ≡ ok r))
      ⊎ ((is_empty sel.pool_id ≡ false)
          × ((p : Pool fl) × ((lookup_pool fl s sel.pool_id ≡ some p)
                × ((c : PoolChoice fl) × ((r.pool ≡ some c) × (c.pool ≡ p))))))

  -- A result that substitutes nothing.
  abbrev Stays : Result (SelectProblem fl) (Resolved fl) → Type 0
  Stays (ok r) = (r.fallback_from ≡ none) × AsAsked r
  Stays (err e) = Unit

  InPool-Stays :
      (p : Pool fl) (res : Result (SelectProblem fl) (Resolved fl))
      → is_empty sel.pool_id ≡ false
      → lookup_pool fl s sel.pool_id ≡ some p
      → InPool p res
      → Stays res
  InPool-Stays p (ok r) pooled is_p h = (h.0, inr (pooled, (p, (is_p, h.1))))
  InPool-Stays p (err e) pooled is_p h = tt

  in_pool-Stays :
      (o : Option (Pool fl))
      → is_empty sel.pool_id ≡ false
      → lookup_pool fl s sel.pool_id ≡ o
      → Stays (in_pool fl s sel av o)
  in_pool-Stays none pooled h = tt
  in_pool-Stays (some p) pooled h =
      let enabled = keep_if (λ inst. inst.enabled) (pool_members fl s p) in
      InPool-Stays p (choose_member fl s sel av p enabled) pooled h (choose_member-InPool p enabled)

  resolve_pool-Stays : is_empty sel.pool_id ≡ false → Stays (resolve_pool fl s sel av)
  unfolding resolve_pool
  resolve_pool-Stays pooled = in_pool-Stays (lookup_pool fl s sel.pool_id) pooled refl

  Plain : Result (SelectProblem fl) (Resolved fl) → Type 0
  Plain (ok r) = r.fallback_from ≡ none
  Plain (err e) = Unit

  resolve_provider-Plain : Plain (resolve_provider fl s sel)
  unfolding Plain resolve_provider
  resolve_provider-Plain = ground arith

  alone-Stays :
      (r : Resolved fl)
      → is_empty sel.pool_id ≡ true
      → resolve_provider fl s sel ≡ ok r
      → Stays (ok r)
  unfolding Plain
  alone-Stays r p q = (subst Plain q resolve_provider-Plain, inl (p, q))

  -- The provider that the task names, or the default.
  abbrev pub IsNamed : Instance → Type 0
  IsNamed origin = (r : Resolved fl) × ((resolve_provider fl s sel ≡ ok r) × (r.inst ≡ origin))

  -- The result runs the task in the place of `origin`, at the end of a chain of fallbacks.
  abbrev pub Replaces : Resolved fl → Instance → Type 0
  Replaces r origin =
      ((is_empty sel.pool_id ≡ true) × (sel.backfill ≡ false))
      × (IsNamed origin
          × ((is_out fl av origin.id ≡ true)
              × (((usable fl av r.inst ≡ true) × (is_out fl av r.inst.id ≡ false))
                  × ((from : Instance) × ((Passed s.instances (takes_over fl av) origin from
                          × Next s.instances from r.inst)
                        × (r.model ≡ fallback_model origin from r.inst sel.model))))))

  -- A result that substitutes nothing, or what it may.
  abbrev pub IsExplained : Result (SelectProblem fl) (Resolved fl) → Type 0
  IsExplained (err e) = Unit
  IsExplained (ok r) =
      ((r.fallback_from ≡ none) × AsAsked r)
      ⊎ ((origin : Instance) × ((r.fallback_from ≡ some origin) × Replaces r origin))

  IsExplained-of_Stays :
      (res : Result (SelectProblem fl) (Resolved fl)) → Stays res → IsExplained res
  IsExplained-of_Stays (err e) h = tt
  IsExplained-of_Stays (ok r) h = inl h

  fits_both :
      (next : Instance)
      → takes_over fl av next ≡ true
      → (usable fl av next ≡ true) × (is_out fl av next.id ≡ false)
  unfolding takes_over
  fits_both next h = both_hold (usable fl av next) (is_out fl av next.id) h

  substitute-IsExplained :
      (r : Resolved fl) (w : Walk)
      → is_empty sel.pool_id ≡ true
      → sel.backfill ≡ false
      → resolve_provider fl s sel ≡ ok r
      → is_out fl av r.inst.id ≡ true
      → IsRight s.instances (takes_over fl av) r.inst w
      → IsExplained (ok (substitute fl sel r w))
  substitute-IsExplained r stopped p b q o w = inl (alone-Stays r p q)
  substitute-IsExplained r exhausted p b q o w = absurd w
  substitute-IsExplained r (found from next) p b q o w = inr (
    r.inst,
    (refl, ((p, b), ((r, (q, refl)), (o, (fits_both next w.1.1, (from, ((w.0, w.1.0), refl))))))),
  )

  spared-Stays :
      (r : Resolved fl) (problem : Option (SelectProblem fl))
      → Stays (ok r)
      → Stays (spared fl r problem)
  spared-Stays r none h = h
  spared-Stays r (some problem) h = tt

  -- `place`, by what it tests.
  split-IsExplained :
      (r : Resolved fl) (backfill out : Bool)
      → sel.backfill ≡ backfill
      → is_out fl av r.inst.id ≡ out
      → is_empty sel.pool_id ≡ true
      → resolve_provider fl s sel ≡ ok r
      → IsExplained (
          if backfill
          then spared fl r (check_spare fl av sel.min_urgency r.inst)
          else if out
          then ok (substitute fl sel r (fallback_walk s.instances (takes_over fl av) r.inst))
          else ok r)
  split-IsExplained r true out b o p q =
      let spare = check_spare fl av sel.min_urgency r.inst in
      IsExplained-of_Stays (spared fl r spare) (spared-Stays r spare (alone-Stays r p q))
  split-IsExplained r false true b o p q =
      let takes = takes_over fl av in
      substitute-IsExplained r (fallback_walk s.instances takes r.inst) p b q o
        (fallback_walk-IsRight s.instances takes r.inst)
  split-IsExplained r false false b o p q = inl (alone-Stays r p q)

  bound-IsExplained :
      (res : Result (SelectProblem fl) (Resolved fl))
      → resolve_provider fl s sel ≡ res
      → is_empty sel.pool_id ≡ true
      → IsExplained (res >>= place fl s sel av)
  bound-IsExplained (err e) q p = tt
  bound-IsExplained (ok r) q p =
      split-IsExplained r sel.backfill (is_out fl av r.inst.id) refl refl p q

  -- A selection resolves to an error, to exactly what it asks for (the provider that it names, or the
  -- default, as Resolve gives it, or a choice recorded for the pool that it names), or, with the
  -- named provider recorded, to another one: this only when the named one waits out a rate limit and
  -- the task is neither pooled nor backfill work, and then to a provider that is usable and has
  -- allowance left, at the end of a chain of fallbacks none of which takes the work, with the model
  -- that the rule for fallbacks gives.
  pub resolve_available-IsExplained : IsExplained (resolve_available fl s sel av)
  unfolding resolve_available
  resolve_available-IsExplained = elim (Bool-cases (is_empty sel.pool_id)) [
    | inl e ↦ rw e (bound-IsExplained (resolve_provider fl s sel) refl e)
    | inr e ↦ rw e (IsExplained-of_Stays (resolve_pool fl s sel av) (resolve_pool-Stays e))
  ]
