-- ===== src/Queue/Order.antt =====
-- The order of the queue (internal/app/app.go): `blockOrder`, `GroupedOrder` and `moveTask`.
use claudeq.Prelude.{
  ℕ, zero, suc, ◌-◌, Option, none, some, List, [], ◌∷◌, ◌++◌, Text, ◌==◌, any, keep_if, length,
  if◌then◌else◌, ltb,
}
use claudeq.Prelude.Int.{ℤ, pos, negsuc}
use claudeq.Prelude.Strings.{take, drop}
use claudeq.Prelude.Result.{Result, ok, err}
use claudeq.Task.Model.{Task}

pub data QueueProblem : Type 0 where
  not_found already_exists id_changed group_not_found : Text → QueueProblem
  group_required new_group_required group_refused : QueueProblem

-- The groups that are not seen yet, in the order in which they first appear.
unfoldable pub blocks_from : List Text → List Task → List Text
unfolding any
blocks_from seen [] = []
blocks_from seen (t ∷ ts) =
    let skipped = blocks_from seen ts in
    let added = t.group ∷ blocks_from (t.group ∷ seen) ts in
    if any (λ g. g == t.group) seen then skipped else added

unfoldable pub block_order : List Task → List Text
unfolding blocks_from
block_order ts = blocks_from [] ts

unfoldable pub of_group : Text → List Task → List Task
unfolding keep_if
of_group g ts = keep_if (λ t. t.group == g) ts

-- `for g := range order { for t := range tasks { if t.Group == g { … } } }`
unfoldable pub in_blocks : List Text → List Task → List Task
unfolding of_group
in_blocks [] ts = []
in_blocks (g ∷ gs) ts = of_group g ts ++ in_blocks gs ts

unfoldable pub grouped_order : List Task → List Task
unfolding block_order in_blocks
grouped_order ts = in_blocks (block_order ts) ts

-- `indexOf`, with `none` for -1.
unfoldable pub index_from : ℕ → Text → List Task → Option ℕ
index_from i id [] = none
index_from i id (t ∷ ts) =
    let rest = index_from (suc i) id ts in if t.id == id then some i else rest

unfoldable pub index_of : List Task → Text → Option ℕ
unfolding index_from
index_of ts id = index_from 0 id ts

-- `append(tasks[:i], tasks[i+1:]...)`
unfoldable pub remove_at : ℕ → List Task → List Task
remove_at i ts = take i ts ++ drop (suc i) ts

unfoldable pub insert_at : ℕ → Task → List Task → List Task
insert_at i t ts = take i ts ++ t ∷ drop i ts

-- The target index, clamped to the valid range of a list that is not empty.
unfoldable pub clamp : ℤ → ℕ → ℕ
clamp (negsuc n) len = 0
clamp (pos n) len = if ltb (len - 1) n then len - 1 else n

unfoldable pub in_group : Option Text → Task → Task
in_group none t = t
in_group (some g) t = record t { group = g }

abbrev pub nth : ℕ → List Task → Option Task
nth i [] = none
nth zero (t ∷ ts) = some t
nth (suc i) (t ∷ ts) = nth i ts

abbrev pub place_at : ℕ → ℤ → Option Task → List Task → List Task
place_at from to none ts = ts
place_at from to (some t) ts =
    grouped_order (insert_at (clamp to (length ts)) t (remove_at from ts))

abbrev pub move_from :
    Text → Option Text → ℤ → Option ℕ → List Task → Result QueueProblem (List Task)
move_from id group to none ts = err (not_found id)
move_from id group to (some from) ts = elim (nth from ts) [
  | none ↦ ok ts
  | some t ↦ ok (place_at from to (some (in_group group t)) ts)
]

-- What `moveTask` makes of the task list.
unfoldable pub move_task : Text → Option Text → ℤ → List Task → Result QueueProblem (List Task)
unfolding index_of grouped_order insert_at remove_at clamp in_group
move_task id group to ts = move_from id group to (index_of ts id) ts
