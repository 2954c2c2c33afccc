-- ===== src/Queue/Groups.antt =====
-- The groups of the queue (internal/app/app.go): `RenameGroup`, `MoveGroup` and the fold state.
use claudeq.Prelude.{
  Bool, true, false, not, ◌&&◌, Option, none, some, List, [], ◌∷◌, ◌++◌, Text, ◌==◌, any, is_empty,
  is_some, keep_if, map, if◌then◌else◌,
}
use claudeq.Prelude.Strings.{trim_space}
use claudeq.Prelude.Assoc.{Assoc, insert}
use claudeq.Prelude.Result.{Result, ok, err}
use claudeq.Task.Model.{Task}
use claudeq.Task.Checks.{check_group}
use claudeq.Store.State.{State, group_collapsed, set_group_collapsed, keep_groups}
use claudeq.Queue.Order.{
  QueueProblem, group_not_found, group_required, new_group_required, group_refused, block_order,
  of_group, in_blocks,
}

-- `slices.Contains`, `slices.DeleteFunc` and `slices.Index`.
abbrev pub contains : Text → List Text → Bool
contains g gs = any (λ h. h == g) gs

abbrev pub without : Text → List Text → List Text
without g gs = keep_if (λ h. not (h == g)) gs

-- `slices.Insert(order, slices.Index(order, before), name)`; without the group, at the end.
unfoldable pub insert_before : Text → Text → List Text → List Text
insert_before name before [] = name ∷ []
insert_before name before (g ∷ gs) =
    let rest = insert_before name before gs in if g == before then name ∷ g ∷ gs else g ∷ rest

-- What `MoveGroup` makes of the task list, where `none` moves the group to the end.
abbrev pub new_place : Text → Option Text → List Text → List Text
new_place name none order = without name order ++ name ∷ []
new_place name (some before) order = insert_before name before (without name order)

abbrev pub is_same : Text → Option Text → Bool
is_same name none = false
is_same name (some before) = before == name

abbrev pub missing_before : Option Text → List Text → Option Text
missing_before none order = none
missing_before (some before) order = if contains before order then none else some before

abbrev pub move_in :
    Text → Option Text → Option Text → List Text → List Task → Result QueueProblem (List Task)
move_in name before (some missing) order ts = err (group_not_found missing)
move_in name before none order ts = ok (in_blocks (new_place name before order) ts)

unfoldable pub move_group : Text → Option Text → List Task → Result QueueProblem (List Task)
unfolding block_order in_blocks insert_before any keep_if
move_group name before ts =
    if is_empty name
    then err group_required
    else if is_same name before
    then ok ts
    else if not (contains name (block_order ts))
    then err (group_not_found name)
    else move_in name before (missing_before before (block_order ts)) (block_order ts) ts

-- The task, in the group's new name.
abbrev pub renamed : Text → Text → Task → Task
renamed from to t = if t.group == from then record t { group = to } else t

-- The tasks of a merge: first those that were there, then those that join.
unfoldable pub joined : Text → Text → List Task → List Task
unfolding of_group
joined from to ts = of_group to ts ++ map (renamed from to) (of_group from ts)

-- The tasks, block after block. `new` is the list with the new names.
unfoldable pub rename_blocks : Text → Text → Bool → List Text → List Task → List Task → List Task
unfolding of_group
rename_blocks from to merged [] join new = []
rename_blocks from to merged (g ∷ gs) join new =
    let rest = rename_blocks from to merged gs join new in
    if g == from
    then (if merged then join ++ rest else of_group to new ++ rest)
    else if g == to && merged
    then join ++ rest
    else of_group g new ++ rest

unfoldable pub rename_tasks : Text → Text → List Task → List Task
unfolding block_order joined rename_blocks any keep_if
rename_tasks from to ts =
    let order = block_order ts in
    let merged = contains to order in
    rename_blocks from to merged (if merged then without from order else order) (joined from to ts)
      (map (renamed from to) ts)

-- The fold state after a rename.
unfoldable pub rename_fold : Text → Text → Bool → State → State
unfolding group_collapsed set_group_collapsed
rename_fold from to merged s =
    set_group_collapsed from false
      (if group_collapsed s from && not merged then set_group_collapsed to true s else s)

abbrev pub rename_trimmed :
    Text → Text → List Task → State → Result QueueProblem (List Task × State)
rename_trimmed from to ts s =
    if is_empty from
    then err group_required
    else if is_empty to
    then err new_group_required
    else if is_some (check_group to)
    then err group_refused
    else if from == to
    then ok (ts, s)
    else if not (contains from (block_order ts))
    then err (group_not_found from)
    else ok (rename_tasks from to ts, rename_fold from to (contains to (block_order ts)) s)

unfoldable pub rename_group :
    Text → Text → List Task → State → Result QueueProblem (List Task × State)
unfolding trim_space check_group rename_tasks rename_fold block_order any
rename_group from to ts s = rename_trimmed (trim_space from) (trim_space to) ts s

-- The groups that a task names, for `pruneGroupState`.
unfoldable pub live_groups : List Task → Assoc Bool
unfolding insert
live_groups [] = []
live_groups (t ∷ ts) =
    let rest = live_groups ts in if is_empty t.group then rest else insert t.group true rest

unfoldable pub prune_groups : List Task → State → State
unfolding live_groups keep_groups
prune_groups ts s = keep_groups (live_groups ts) s

unfoldable pub fold_group : Text → Bool → State → Result QueueProblem State
unfolding check_group set_group_collapsed
fold_group group collapsed s =
    if is_empty group
    then err group_required
    else if is_some (check_group group)
    then err group_refused
    else ok (set_group_collapsed group collapsed s)
