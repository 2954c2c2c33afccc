-- ===== src/Queue/MoveLaws.antt =====
-- Moving a task keeps the tasks of the queue.
use claudeq.Prelude.{
  ℕ, zero, suc, ◌+◌, ◌≡◌, refl, ap, ◌∙◌, true, none, some, List, [], ◌∷◌, ◌++◌, Text, ◌==◌, any,
  arith, inl, inr, Bool-cases, length,
}
use mathlib.Core.List.{Perm, perm_middle}
use mathlib.Core.List.Perm
use claudeq.Prelude.Int.{ℤ}
use claudeq.Prelude.Strings.{take, drop}
use claudeq.Prelude.Result.{ok}
use claudeq.Task.Model.{Task}
use claudeq.Queue.Order.{
  grouped_order, index_from, index_of, remove_at, insert_at, clamp, nth, move_from, in_group,
  move_task,
}
use claudeq.Queue.OrderLaws.{grouped_order-perm}
use claudeq.Queue.Edit.{move}

take-drop : (i : ℕ) (ts : List Task) → take i ts ++ drop i ts ≡ ts
take-drop zero ts = refl
take-drop (suc i) [] = refl
take-drop (suc i) (t ∷ ts) = ap (λ us. t ∷ us) (take-drop i ts)

insert_at-perm : (i : ℕ) (t : Task) (ts : List Task) → Perm (insert_at i t ts) (t ∷ ts)
unfolding insert_at
insert_at-perm i t ts =
    let moved : Perm (insert_at i t ts) (t ∷ (take i ts ++ drop i ts)) =
      perm_middle (take i ts) (drop i ts) in
    rw (take-drop i ts) at moved

remove_at-perm :
    (i : ℕ) (t : Task) (ts : List Task) → nth i ts ≡ some t → Perm (t ∷ remove_at i ts) ts
unfolding remove_at
remove_at-perm i t [] h = cc
remove_at-perm zero t (u ∷ ts) h = let same : u ≡ t = cc in rw same (Perm.refl (t ∷ ts))
remove_at-perm (suc i) t (u ∷ ts) h =
    Perm.trans (Perm.swap u t (take i ts ++ drop (suc i) ts))
      (Perm.cons u (remove_at-perm i t ts h))

-- A queued id is found, at a place that holds a task.
index_from-found :
    (i : ℕ) (id : Text) (ts : List Task)
    → any (λ t. t.id == id) ts ≡ true
    → (k : ℕ) × ((index_from i id ts ≡ some (i + k)) × ((t : Task) × (nth k ts ≡ some t)))
unfolding index_from any
index_from-found i id [] h = cc
index_from-found i id (t ∷ ts) h = elim (Bool-cases (t.id == id)) [
  | inl e ↦ (0, (rw e (ap some (omega arith)), (t, refl)))
  | inr e ↦
      let (k, (f, held)) = index_from-found (suc i) id ts (ground (arith, h)) in
      (suc k, (rw e (f ∙ ap some (omega arith)), held))
]

place-perm :
    (from : ℕ) (to : ℕ) (t : Task) (ts : List Task)
    → nth from ts ≡ some t
    → Perm (grouped_order (insert_at to t (remove_at from ts))) ts
place-perm from to t ts h =
    Perm.trans (grouped_order-perm (insert_at to t (remove_at from ts)))
      (Perm.trans (insert_at-perm to t (remove_at from ts)) (remove_at-perm from t ts h))

placed :
    (id : Text) (to : ℤ) (k : ℕ) (t : Task) (ts : List Task)
    → nth k ts ≡ some t
    → move_from id none to (some k) ts
      ≡ ok (grouped_order (insert_at (clamp to (length ts)) t (remove_at k ts)))
unfolding in_group
placed id to k t ts held = rw (move_from, held) refl

-- The move of a queued task succeeds whatever the target index, and the queue after it has the same
-- tasks.
pub move-perm :
    (id : Text) (to : ℤ) (ts : List Task)
    → any (λ t. t.id == id) ts ≡ true
    → (us : List Task) × ((move id to ts ≡ ok us) × Perm us ts)
unfolding move move_task index_of
move-perm id to ts h =
    let (k, (f, (t, held))) = index_from-found 0 id ts h in
    let found : index_from 0 id ts ≡ some k = f ∙ ap some (omega arith) in
    (
      grouped_order (insert_at (clamp to (length ts)) t (remove_at k ts)),
      (rw found (placed id to k t ts held), place-perm k (clamp to (length ts)) t ts held),
    )
