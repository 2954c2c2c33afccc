-- ===== src/Queue/Edit.antt =====
-- Adding, removing and editing tasks (internal/app/app.go). An operation gives the task list that
-- `UpdateConfig` goes on to save.
use claudeq.Prelude.{
  ℕ, Bool, Option, none, some, List, [], ◌∷◌, ◌++◌, Text, ◌==◌, any, is_some, not, if◌then◌else◌,
}
use claudeq.Prelude.Int.{ℤ}
use claudeq.Prelude.Strings.{set, trim_space}
use claudeq.Prelude.Result.{Result, ok, err, ◌>>=◌}
use claudeq.Task.Model.{Task, Trigger}
use claudeq.Task.Checks.{is_cron, check_group}
use claudeq.Store.Run.{Run}
use claudeq.Store.State.{State, forget_task}
use claudeq.Queue.Order.{
  QueueProblem, not_found, already_exists, id_changed, group_refused, index_of, grouped_order,
  remove_at, nth, move_task,
}
use claudeq.Queue.Groups.{prune_groups}

pub data DependencyProblem : Type 0 where
  unknown_dependency invalid_dependency : Text → DependencyProblem

abbrev pub trigger_at : Option ℕ → List Task → Option Trigger
trigger_at none ts = none
trigger_at (some i) ts = elim (nth i ts) [ none ↦ none | some t ↦ some t.trigger ]

abbrev pub refuse_dependency : Text → Option Trigger → List Run → Option DependencyProblem
refuse_dependency dep (some trigger) runs =
    if is_cron trigger then some (invalid_dependency dep) else none
refuse_dependency dep none runs =
    if any (λ r. r.task_id == dep) runs then none else some (unknown_dependency dep)

abbrev pub or_else : Option DependencyProblem → Option DependencyProblem → Option DependencyProblem
or_else none rest = rest
or_else (some e) rest = some e

-- The loop of `checkDependencies`, with the history that it reads at most once.
unfoldable pub check_waits : List Task → List Run → List Text → Option DependencyProblem
unfolding index_of any
check_waits ts runs [] = none
check_waits ts runs (dep ∷ deps) =
    let rest = check_waits ts runs deps in
    or_else (refuse_dependency dep (trigger_at (index_of ts dep) ts) runs) rest

pub data AddProblem : Type 0 where
  bad_dependency : DependencyProblem → AddProblem
  bad_task : QueueProblem → AddProblem

abbrev pub append_new : Task → List Task → Option DependencyProblem → Result AddProblem (List Task)
append_new t ts (some e) = err (bad_dependency e)
append_new t ts none =
    if is_some (index_of ts t.id)
    then err (bad_task (already_exists t.id))
    else ok (grouped_order (ts ++ t ∷ []))

-- `AddTask`
unfoldable pub add_task : List Run → Task → List Task → Result AddProblem (List Task)
unfolding check_waits grouped_order index_of
add_task runs t ts = append_new t ts (check_waits ts runs t.depends_on)

abbrev pub remove_found : Text → Option ℕ → List Task → Result QueueProblem (List Task)
remove_found id none ts = err (not_found id)
remove_found id (some i) ts = ok (remove_at i ts)

-- `RemoveTask`, which also forgets the state of the id and of groups that are gone.
unfoldable pub remove_task : Text → List Task → State → Result QueueProblem (List Task × State)
unfolding index_of remove_at forget_task prune_groups
remove_task id ts s =
    remove_found id (index_of ts id) ts
    >>= (λ left. ok (left, prune_groups left (forget_task id s)))

abbrev pub write_edited : Text → ℕ → List Task → Task → Result QueueProblem (List Task)
write_edited id i ts edited =
    if not (edited.id == id) then err (id_changed id) else ok (grouped_order (set ts i edited))

abbrev pub edit_found :
    Text
    → (Task → Result QueueProblem Task)
    → Option ℕ
    → List Task
    → Result QueueProblem (List Task)
edit_found id apply none ts = err (not_found id)
edit_found id apply (some i) ts = elim (nth i ts) [
  | none ↦ err (not_found id)
  | some t ↦ apply t >>= write_edited id i ts
]

-- `EditTask`, with the change as an argument.
unfoldable pub edit_task :
    Text
    → (Task → Result QueueProblem Task)
    → List Task
    → State
    → Result QueueProblem (List Task × State)
unfolding index_of grouped_order prune_groups
edit_task id apply ts s =
    edit_found id apply (index_of ts id) ts >>= (λ edited. ok (edited, prune_groups edited s))

abbrev pub enable_at : Bool → Option ℕ → Text → List Task → Result QueueProblem (List Task)
enable_at enabled none id ts = err (not_found id)
enable_at enabled (some i) id ts = elim (nth i ts) [
  | none ↦ err (not_found id)
  | some t ↦ ok (set ts i (record t { enabled = enabled }))
]

-- `SetEnabled`
unfoldable pub set_enabled : Text → Bool → List Task → Result QueueProblem (List Task)
unfolding index_of
set_enabled id enabled ts = enable_at enabled (index_of ts id) id ts

-- `Move`
unfoldable pub move : Text → ℤ → List Task → Result QueueProblem (List Task)
unfolding move_task
move id to ts = move_task id none to ts

abbrev pub move_trimmed :
    Text → Text → ℤ → List Task → State → Result QueueProblem (List Task × State)
move_trimmed id group to ts s =
    if is_some (check_group group)
    then err group_refused
    else move_task id (some group) to ts >>= (λ moved. ok (moved, prune_groups moved s))

-- `MoveToGroup`
unfoldable pub move_to_group :
    Text → Text → ℤ → List Task → State → Result QueueProblem (List Task × State)
unfolding trim_space check_group move_task prune_groups
move_to_group id group to ts s = move_trimmed id (trim_space group) to ts s
