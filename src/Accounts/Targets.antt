-- ===== src/Accounts/Targets.antt =====
-- `EnsureRunnable`, `EnsurePoolRunnable` and `EnsureTaskTarget` of internal/app: work is not filed for
-- a provider that is known not to run it. What the checker answers is an argument.
use claudeq.Prelude.{Option, none, some, List, [], ◌∷◌, Text, if◌then◌else◌, is_empty, not}
use claudeq.Prelude.Floats.{Floats}
use claudeq.Prelude.Result.{Result, ok, err}
use claudeq.Provider.Model.{Instance}
use claudeq.Provider.Set.{Set, lookup_pool, pool_members}
use claudeq.Provider.Health.{Health, Reason, known_unready}
use claudeq.Provider.Selection.{Selection, Resolved, SelectProblem}
use claudeq.Provider.Resolve.{resolve}

-- Why a member of a pool cannot run tasks.
pub data MemberProblem : Type 0 where
  member_off : Instance → MemberProblem
  member_unready : Instance → Reason → MemberProblem

module _ (fl : Floats) where
  pub data TargetProblem : Type 0 where
    unresolved : SelectProblem fl → TargetProblem
    not_ready : Text → Reason → TargetProblem
    no_such_pool : Text → TargetProblem
    no_member_ready : Text → List MemberProblem → TargetProblem

  abbrev pub if_ready : (Instance → Health) → Instance → Option TargetProblem
  if_ready check inst =
      if known_unready (check inst) then some (not_ready inst.id (check inst).reason) else none

  abbrev pub if_resolved :
      (Instance → Health) → Result (SelectProblem fl) (Resolved fl) → Option TargetProblem
  if_resolved check (err e) = some (unresolved e)
  if_resolved check (ok res) = if_ready check res.inst

  -- `EnsureRunnable`, with a selection that names the provider only.
  unfoldable pub ensure_runnable :
      Set fl → (Instance → Health) → Selection fl → Option TargetProblem
  unfolding resolve known_unready
  ensure_runnable set check sel = if_resolved check (resolve fl set sel)

  -- The loop over the members, with the reasons so far; `none` when one of them can run.
  unfoldable pub member_problems : (Instance → Health) → List Instance → Option (List MemberProblem)
  unfolding known_unready
  member_problems check [] = some []
  member_problems check (inst ∷ insts) =
      let rest = member_problems check insts in
      if not inst.enabled
      then also (member_off inst) rest
      else if known_unready (check inst)
      then also (member_unready inst (check inst).reason) rest
      else none
    where
      also : MemberProblem → Option (List MemberProblem) → Option (List MemberProblem)
      also p none = none
      also p (some ps) = some (p ∷ ps)

  abbrev pub if_some_ready : Text → Option (List MemberProblem) → Option TargetProblem
  if_some_ready id none = none
  if_some_ready id (some problems) = some (no_member_ready id problems)

  -- `EnsurePoolRunnable`
  unfoldable pub ensure_pool_runnable : Set fl → (Instance → Health) → Text → Option TargetProblem
  unfolding lookup_pool pool_members member_problems
  ensure_pool_runnable set check id = elim (lookup_pool fl set id) [
    | none ↦ some (no_such_pool id)
    | some p ↦ if_some_ready id (member_problems check (pool_members fl set p))
  ]

  -- `EnsureTaskTarget`, with the selection that names the provider only.
  unfoldable pub ensure_task_target :
      Set fl → (Instance → Health) → Selection fl → Text → Option TargetProblem
  unfolding ensure_pool_runnable ensure_runnable
  ensure_task_target set check sel pool_id =
      if not (is_empty pool_id)
      then ensure_pool_runnable set check pool_id
      else ensure_runnable set check sel
