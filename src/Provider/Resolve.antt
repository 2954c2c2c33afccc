-- ===== src/Provider/Resolve.antt =====
-- `Resolve`, `ResolveAvailable` and `resolvePool` of internal/provider/resolve.go.
use claudeq.Prelude.{
  Bool, true, false, not, ◌&&◌, Option, none, some, List, [], ◌∷◌, Text, ◌==◌, ltb, if◌then◌else◌,
  is_empty, first, keep_if, map,
}
use claudeq.Prelude.Floats.{Floats}
use claudeq.Prelude.Result.{Result, ok, err, ◌>>=◌}
use claudeq.Provider.Model.{Instance, Pool, MemberScore, Note, pool_label}
use claudeq.Provider.Set.{Set, lookup, lookup_pool, pool_members}
use claudeq.Provider.Rank.{rank_pool}
use claudeq.Provider.Fallback.{Walk, stopped, found, exhausted, fallback_walk, fallback_model}
use claudeq.Provider.Selection.{
  Selection, Resolved, SelectProblem, no_providers, unknown_provider, provider_disabled,
  unknown_pool, pool_switched_off, no_spare_in_pool, Availability, nothing_known, is_out, usable,
  check_spare, pool_inputs,
}

module _ (fl : Floats) where
  abbrev pub model_or : Text → Text → Text
  model_or model default = if is_empty model then default else model

  abbrev pub is_usable : Option (Instance → Bool × Note fl) → Instance → Bool
  is_usable none inst = true
  is_usable (some f) inst = (f inst).0

  abbrev pub run_on :
      (Selection fl) → Pool fl → List (MemberScore fl) → Bool → Instance → (Resolved fl)
  run_on sel p scores resumed inst = record {
    inst = inst;
    model = model_or sel.model inst.default_model;
    fallback_from = none;
    pool = some (record { pool = p; scores = scores; resumed = resumed });
  }

  -- The member that holds the interrupted session, while it can take the work.
  unfoldable pub keeps_session : (Selection fl) → (Availability fl) → Instance → Bool
  unfolding is_out usable pool_inputs
  keeps_session sel av inst =
      inst.id == sel.prefer
      && not (is_out fl av inst.id)
      && usable fl av inst
      && is_usable (pool_inputs fl sel av).usable inst

  -- The best score, if its member can take work.
  abbrev pub best_score : List (MemberScore fl) → Option (MemberScore fl)
  best_score [] = none
  best_score (s ∷ ss) = if ltb s.tier 3 then some s else none

  abbrev pub or_first : Option Instance → Instance → Instance
  or_first none default = default
  or_first (some inst) default = inst

  -- What is left when no member can take work: the first one that waits out a limit, or the first.
  abbrev pub last_resort :
      (Selection fl)
      → (Availability fl)
      → Pool fl
      → List (MemberScore fl)
      → Instance
      → List Instance
      → Result (SelectProblem fl) (Resolved fl)
  last_resort sel av p scores head enabled =
      if sel.backfill
      then err (no_spare_in_pool (pool_label fl p) (map (λ s. s.note) scores))
      else ok
          (run_on sel p scores false (or_first (first (λ inst. is_out fl av inst.id) enabled) head))

  -- A ranked member that can take work is configured, so the lookup succeeds.
  abbrev pub by_best :
      Set fl
      → (Selection fl)
      → (Availability fl)
      → Pool fl
      → List (MemberScore fl)
      → Instance
      → List Instance
      → Option (MemberScore fl)
      → Result (SelectProblem fl) (Resolved fl)
  by_best s sel av p scores head enabled none = last_resort sel av p scores head enabled
  by_best s sel av p scores head enabled (some best) =
      ok (run_on sel p scores false (or_first (lookup fl s best.provider_id) head))

  abbrev pub choose_ranked :
      Set fl
      → (Selection fl)
      → (Availability fl)
      → Pool fl
      → List (MemberScore fl)
      → Instance
      → List Instance
      → Result (SelectProblem fl) (Resolved fl)
  choose_ranked s sel av p scores head enabled =
      by_best s sel av p scores head enabled (best_score scores)

  abbrev pub by_session :
      Set fl
      → (Selection fl)
      → (Availability fl)
      → Pool fl
      → Instance
      → List Instance
      → Option Instance
      → Result (SelectProblem fl) (Resolved fl)
  by_session s sel av p head enabled (some inst) = ok (run_on sel p [] true inst)
  by_session s sel av p head enabled none =
      choose_ranked s sel av p (rank_pool fl s p (pool_inputs fl sel av)) head enabled

  abbrev pub choose_member :
      Set fl
      → (Selection fl)
      → (Availability fl)
      → Pool fl
      → List Instance
      → Result (SelectProblem fl) (Resolved fl)
  choose_member s sel av p [] = err (pool_switched_off p.id)
  choose_member s sel av p (head ∷ enabled) =
      by_session s sel av p head (head ∷ enabled) (first (keeps_session sel av) (head ∷ enabled))

  abbrev pub in_pool :
      Set fl
      → (Selection fl)
      → (Availability fl)
      → Option (Pool fl)
      → Result (SelectProblem fl) (Resolved fl)
  in_pool s sel av none = err (unknown_pool sel.pool_id)
  in_pool s sel av (some p) =
      choose_member s sel av p (keep_if (λ inst. inst.enabled) (pool_members fl s p))

  unfoldable pub resolve_pool :
      Set fl → (Selection fl) → (Availability fl) → Result (SelectProblem fl) (Resolved fl)
  unfolding first keep_if keeps_session lookup lookup_pool pool_members rank_pool
  resolve_pool s sel av = in_pool s sel av (lookup_pool fl s sel.pool_id)

  -- The provider that a selection names, or the default.
  abbrev pub asked_id : Set fl → (Selection fl) → Text
  asked_id s sel = if is_empty sel.provider_id then s.default_id else sel.provider_id

  abbrev pub run_alone :
      Text → (Selection fl) → Option Instance → Result (SelectProblem fl) (Resolved fl)
  run_alone id sel none = err (unknown_provider id)
  run_alone id sel (some inst) =
      if inst.enabled
      then ok (record {
        inst = inst;
        model = model_or sel.model inst.default_model;
        fallback_from = none;
        pool = none;
      })
      else err (provider_disabled id)

  unfoldable pub resolve_provider :
      Set fl → (Selection fl) → Result (SelectProblem fl) (Resolved fl)
  unfolding lookup
  resolve_provider s sel =
      if is_empty (asked_id s sel)
      then err no_providers
      else run_alone (asked_id s sel) sel (lookup fl s (asked_id s sel))

  unfoldable pub resolve : Set fl → (Selection fl) → Result (SelectProblem fl) (Resolved fl)
  unfolding resolve_pool resolve_provider
  resolve s sel =
      if is_empty sel.pool_id then resolve_provider s sel else resolve_pool s sel (nothing_known fl)

  -- A hop that could take the work now.
  unfoldable pub takes_over : (Availability fl) → Instance → Bool
  unfolding is_out usable
  takes_over av inst = usable fl av inst && not (is_out fl av inst.id)

  abbrev pub substitute : (Selection fl) → (Resolved fl) → Walk → (Resolved fl)
  substitute sel res (found from next) = record {
    inst = next;
    model = fallback_model res.inst from next sel.model;
    fallback_from = some res.inst;
    pool = none;
  }
  substitute sel res stopped = res
  substitute sel res exhausted = res

  abbrev pub spared :
      (Resolved fl) → Option (SelectProblem fl) → Result (SelectProblem fl) (Resolved fl)
  spared res none = ok res
  spared res (some problem) = err problem

  -- What is done with the provider that the selection resolved to.
  abbrev pub place :
      Set fl
      → (Selection fl)
      → (Availability fl)
      → (Resolved fl)
      → Result (SelectProblem fl) (Resolved fl)
  place s sel av res =
      if sel.backfill
      then spared res (check_spare fl av sel.min_urgency res.inst)
      else if is_out fl av res.inst.id
      then ok (substitute sel res (fallback_walk s.instances (takes_over av) res.inst))
      else ok res

  unfoldable pub resolve_available :
      Set fl → (Selection fl) → (Availability fl) → Result (SelectProblem fl) (Resolved fl)
  unfolding resolve_pool resolve_provider check_spare is_out fallback_walk takes_over fallback_model
  resolve_available s sel av =
      if is_empty sel.pool_id
      then (do res ← resolve_provider s sel; place s sel av res)
      else resolve_pool s sel av
