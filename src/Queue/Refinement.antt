-- ===== src/Queue/Refinement.antt =====
-- The queue of internal/app/app.go, served one request after another, is the bag of its tasks.
use claudeq.Prelude.{
  ℕ, ◌≤◌, ◌≡◌, refl, ap, sym, ◌∙◌, Bool, true, false, Option, none, some, List, [], ◌∷◌, ◌++◌, Text,
  ◌==◌, map, is_some, any, Bool-cases, inl, inr, if◌then◌else◌, arith,
}
use mathlib.Core.Path.{subst}
use mathlib.Core.List.{Perm, perm_middle, append-nil}
use mathlib.Core.List.Perm
use claudeq.Prelude.Int.{ℤ}
use claudeq.Prelude.Result.{Result, ok, err, ◌>>=◌}
use claudeq.Prelude.Strings.{set}
use claudeq.Task.Model.{Task}
use claudeq.Store.Run.{Run}
use claudeq.Store.State.{State, forget_task}
use claudeq.Queue.Order.{
  QueueProblem, not_found, already_exists, index_from, index_of, grouped_order, move_task,
  move_from, remove_at, nth,
}
use claudeq.Queue.OrderLaws.{grouped_order-perm}
use claudeq.Queue.Groups.{prune_groups}
use claudeq.Queue.MoveLaws.{move-perm}
use claudeq.Queue.Edit.{
  DependencyProblem, bad_task, check_waits, append_new, add_task, remove_found, remove_task,
  enable_at, set_enabled, move,
}
use claudeq.Queue.Bag.{
  Request, adding, removing, enabling, moving, others, enable_if, on_bag, on_bag_all, IsUnrepeated,
  count-perm, on_bag_all-perm,
}
use claudeq.Queue.Serving.{
  index_from-FoundAt, count-others, count-enable, index_from-absent, count-new, index_from-any,
}

abbrev pub accepted {ℓ} : {E : Type ℓ} {A : Type 0} → Result E A → Option A
accepted (ok a) = some a
accepted (err e) = none

abbrev pub accepted_left {ℓ} : {E : Type ℓ} → Result E (List Task × State) → Option (List Task)
accepted_left (ok r) = some r.0
accepted_left (err e) = none

module _ (runs : List Run) (s : State) where
  -- The queue that a request leaves, if it is accepted.
  unfoldable pub serve : Request → List Task → Option (List Task)
  unfolding add_task remove_task set_enabled move
  serve (adding t) ts = accepted (add_task runs t ts)
  serve (removing id) ts = accepted_left (remove_task id ts s)
  serve (enabling id on) ts = accepted (set_enabled id on ts)
  serve (moving id to) ts = accepted (move id to ts)

  abbrev pub before {ℓ} : {A : Type ℓ} → Request → A × List Request → A × List Request
  before r q = (q.0, r ∷ q.1)

  -- Requests one after another: the queue after them, and those that were accepted.
  unfoldable pub serve_all : List Request → List Task → List Task × List Request
  unfolding serve
  serve_all [] ts = (ts, [])
  serve_all (r ∷ rs) ts = elim (serve r ts) [
    | none ↦ serve_all rs ts
    | some us ↦ before r (serve_all rs us)
  ]

  -- The queue after a request is the bag after it, without repetition.
  abbrev IsServed : Request → List Task → List Task → Type 0
  IsServed r ts us = Perm us (on_bag r ts) × IsUnrepeated us

  by_bag :
      (r : Request) (ts us : List Task)
      → Perm us (on_bag r ts)
      → IsUnrepeated (on_bag r ts)
      → IsServed r ts us
  by_bag r ts us p u = (p, λ x. subst (λ n. n ≤ 1) (sym (count-perm x us (on_bag r ts) p)) (u x))

  adding-IsServed :
      (t : Task) (ts us : List Task)
      → IsUnrepeated ts
      → serve (adding t) ts ≡ some us
      → IsServed (adding t) ts us
  unfolding serve add_task index_of
  adding-IsServed t ts us u h =
      let (absent, same) = by_problem (check_waits ts runs t.depends_on) h in
      by_bag (adding t) ts us
        (rw same (
          Perm.trans (grouped_order-perm (ts ++ t ∷ []))
            (subst (λ vs. Perm (ts ++ t ∷ []) (t ∷ vs)) (append-nil ts) (perm_middle ts []))))
        (λ x. count-new t x ts (index_from-absent 0 t.id ts absent) (u x))
    where
      by_place :
          (b : Bool)
          → accepted (
              if b then err (bad_task (already_exists t.id)) else ok (grouped_order (ts ++ t ∷ [])))
            ≡ some us
          → (b ≡ false) × (us ≡ grouped_order (ts ++ t ∷ []))
      by_place true k = cc
      by_place false k = (refl, cc)

      by_problem :
          (o : Option DependencyProblem)
          → accepted (append_new t ts o) ≡ some us
          → (is_some (index_from 0 t.id ts) ≡ false) × (us ≡ grouped_order (ts ++ t ∷ []))
      by_problem none k = by_place (is_some (index_from 0 t.id ts)) k
      by_problem (some e) k = cc

  removing-IsServed :
      (id : Text) (ts us : List Task)
      → IsUnrepeated ts
      → serve (removing id) ts ≡ some us
      → IsServed (removing id) ts us
  unfolding serve remove_task index_of
  removing-IsServed id ts us u h = by_index (index_from 0 id ts) refl h
    where
      by_index :
          (o : Option ℕ)
          → index_from 0 id ts ≡ o
          → accepted_left
              (remove_found id o ts >>= (λ left. ok (left, prune_groups left (forget_task id s))))
            ≡ some us
          → IsServed (removing id) ts us
      by_index none e k = cc
      by_index (some i) e k =
          let (m, at, f) = index_from-FoundAt 0 i id ts e (u id) in
          let here : i ≡ m = omega (arith, at) in
          let left : us ≡ remove_at i ts = cc in
          by_bag (removing id) ts us
            (rw (left ∙ (ap (λ j. remove_at j ts) here ∙ f.removed)) (Perm.refl (others id ts)))
            (λ x. omega (arith, count-others id x ts, u x))

  enabling-IsServed :
      (id : Text) (on : Bool) (ts us : List Task)
      → IsUnrepeated ts
      → serve (enabling id on) ts ≡ some us
      → IsServed (enabling id on) ts us
  unfolding serve set_enabled index_of
  enabling-IsServed id on ts us u h = by_index (index_from 0 id ts) refl h
    where
      by_task :
          (m : ℕ) (held : Task) (o : Option Task)
          → o ≡ some held
          → accepted (elim o [
            | none ↦ err (not_found id)
            | some t ↦ ok (set ts m (record t { enabled = on }))
          ])
            ≡ some us
          → us ≡ set ts m (record held { enabled = on })
      by_task m held none e k = cc
      by_task m held (some t) e k = cc

      by_index :
          (o : Option ℕ)
          → index_from 0 id ts ≡ o
          → accepted (enable_at on o id ts) ≡ some us
          → IsServed (enabling id on) ts us
      by_index none e k = cc
      by_index (some i) e k =
          let (m, at, f) = index_from-FoundAt 0 i id ts e (u id) in
          let here : i ≡ m = omega (arith, at) in
          by_bag (enabling id on) ts us
            (rw (by_task m f.task (nth m ts) f.holds (rw here at k) ∙ f.enabled on)
              (Perm.refl (map (enable_if id on) ts)))
            (λ x. rw (count-enable id x on ts) (u x))

  moving-IsServed :
      (id : Text) (to : ℤ) (ts us : List Task)
      → IsUnrepeated ts
      → serve (moving id to) ts ≡ some us
      → IsServed (moving id to) ts us
  unfolding serve move move_task index_of
  moving-IsServed id to ts us u h = elim (Bool-cases (any (λ (t : Task). t.id == id) ts)) [
    | inl held ↦
        let (vs, (moved, p)) = move-perm id to ts held in
        let same : vs ≡ us = same_queue (move id to ts) moved h in
        by_bag (moving id to) ts us (subst (λ ws. Perm ws ts) same p) u
    | inr absent ↦ no_move (index_from 0 id ts) (index_from-any 0 id ts ∙ absent) h
  ]
    where
      same_queue :
          {vs : List Task} (r : Result QueueProblem (List Task))
          → r ≡ ok vs
          → accepted r ≡ some us
          → vs ≡ us
      same_queue (ok ws) e k = cc
      same_queue (err e) e' k = cc

      no_move :
          (o : Option ℕ)
          → is_some o ≡ false
          → accepted (move_from id none to o ts) ≡ some us
          → IsServed (moving id to) ts us
      no_move none e k = cc
      no_move (some i) e k = cc

  serve-IsServed :
      (r : Request) (ts us : List Task) → IsUnrepeated ts → serve r ts ≡ some us → IsServed r ts us
  serve-IsServed (adding t) = adding-IsServed t
  serve-IsServed (removing id) = removing-IsServed id
  serve-IsServed (enabling id on) = enabling-IsServed id on
  serve-IsServed (moving id to) = moving-IsServed id to

  -- In a queue in which no id stands twice, any list of requests to add, remove, enable or move a task
  -- leaves, but for the order, the bag that those of them that are accepted leave, where an added task
  -- joins the bag, a removal takes the tasks of its id, a switch changes those of its id, and a move
  -- changes nothing; and again no id stands twice.
  pub serve_all-refines :
      (rs : List Request) (ts : List Task)
      → IsUnrepeated ts
      → Perm (serve_all rs ts).0 (on_bag_all (serve_all rs ts).1 ts)
        × IsUnrepeated (serve_all rs ts).0
  unfolding serve_all
  serve_all-refines [] ts u = (Perm.refl ts, u)
  serve_all-refines (r ∷ rs) ts u =
      by_answer (serve r ts) (λ us e. serve-IsServed r ts us u e)
        (λ us v. serve_all-refines rs us v)
    where
      by_answer :
          (o : Option (List Task))
          → ((us : List Task) → o ≡ some us → IsServed r ts us)
          → ((us : List Task)
              → IsUnrepeated us
              → Perm (serve_all rs us).0 (on_bag_all (serve_all rs us).1 us)
                × IsUnrepeated (serve_all rs us).0)
          → (let q : List Task × List Request = elim o [
            | none ↦ serve_all rs ts
            | some us ↦ before r (serve_all rs us)
          ] in
              Perm q.0 (on_bag_all q.1 ts) × IsUnrepeated q.0)
      by_answer none f rest = rest ts u
      by_answer (some us) f rest =
          let (p, v) = f us refl in
          let (q, w) = rest us v in
          (Perm.trans q (on_bag_all-perm (serve_all rs us).1 us (on_bag r ts) p), w)
