-- ===== src/Engine/AssignLaws.antt =====
-- What the assignment of a tick gives each due task.
use claudeq.Prelude.{
  ℕ, ◌≡◌, ◌⊎◌, inl, inr, refl, Bool, true, false, Option, none, some, List, [], ◌∷◌, Text,
  if◌then◌else◌, All, Any, not, ◌&&◌, is_empty,
}
use claudeq.Prelude.Floats.{Floats}
use claudeq.Prelude.Assoc.{Assoc}
use claudeq.Prelude.Result.{Result, ok, err}
use claudeq.Task.Model.{Task, is_script}
use claudeq.Store.State.{State}
use claudeq.Provider.Set.{Set}
use claudeq.Provider.Selection.{
  Resolved, SelectProblem, no_providers, unknown_provider, provider_disabled, unknown_pool,
  pool_switched_off, no_spare, no_spare_in_pool,
}
use claudeq.Provider.Resolve.{resolve_available}
use claudeq.Engine.State.{Engine}
use claudeq.Engine.Assign.{
  Surroundings, Assignment, WaitReason, Placing, assigned, waits, gate_open, place_resolved,
  place_task, unresolved, assign_from, assign, selection_for, availability, is_unread,
  state_unreadable, plan, add_placing,
}

module _ (fl : Floats) (su : Surroundings fl) (e : Engine) where
  -- A task that is to run on a provider runs on one whose gate is open.
  abbrev pub OnOpen : Option (Resolved fl) → Type 0
  OnOpen none = Unit
  OnOpen (some res) = gate_open su.now e.gates res.inst.id ≡ true

  -- The placing of a task is one of that task, on an open provider, or a reason to wait.
  abbrev pub IsFair : Task → Placing fl → Type 0
  IsFair t (assigned a) = (a.task ≡ t) × OnOpen a.resolved
  IsFair t (waits w) = Unit

  choice-IsFair :
      (b : Bool) (t : Task) (x y : Placing fl)
      → IsFair t x
      → IsFair t y
      → IsFair t (if b then x else y)
  choice-IsFair true t x y p q = p
  choice-IsFair false t x y p q = q

  unresolved-IsFair : (t : Task) (problem : SelectProblem fl) → IsFair t (unresolved fl t problem)
  unresolved-IsFair t no_providers = (refl, tt)
  unresolved-IsFair t (unknown_provider id) = (refl, tt)
  unresolved-IsFair t (provider_disabled id) = (refl, tt)
  unresolved-IsFair t (unknown_pool id) = (refl, tt)
  unresolved-IsFair t (pool_switched_off id) = (refl, tt)
  unresolved-IsFair t (no_spare n) = tt
  unresolved-IsFair t (no_spare_in_pool p ns) = tt

  opened-IsFair :
      (b : Bool) (t : Task) (res : Resolved fl) (w : WaitReason fl)
      → gate_open su.now e.gates res.inst.id ≡ b
      → IsFair t (
          if b
          then assigned (record { task = t; resolved = some res; problem = none })
          else waits w)
  opened-IsFair true t res w h = (refl, h)
  opened-IsFair false t res w h = tt

  place_resolved-IsFair :
      (t : Task) (r : Result (SelectProblem fl) (Resolved fl))
      → IsFair t (place_resolved fl su e t r)
  place_resolved-IsFair t (err problem) = unresolved-IsFair t problem
  place_resolved-IsFair t (ok res) =
      opened-IsFair (gate_open su.now e.gates res.inst.id) t res _ refl

  pub place_task-IsFair :
      (set : Set fl) (st : Option State) (backfill : fl.F) (planned : Assoc ℕ) (t : Task)
      → IsFair t (place_task fl su set e st backfill planned t)
  unfolding place_task
  place_task-IsFair set st backfill planned t =
      choice-IsFair (is_script t) t _ _ (refl, tt)
        (choice-IsFair (not (is_empty t.pool) && is_unread fl st) t (waits (state_unreadable)) _ tt
          (place_resolved-IsFair t (
            resolve_available fl set (selection_for fl t st backfill)
              (availability fl su e planned))))

  -- The task is among the assignments, or has a reason to wait.
  abbrev pub IsPlaced : List (Assignment fl) × Assoc (WaitReason fl) → Task → Type 0
  IsPlaced out t = Any (λ a. a.task ≡ t) out.0 ⊎ Any (λ w. w.0 ≡ t.id) out.1

  -- Every assignment is on an open provider, and every due task is placed.
  abbrev pub Settles : List Task → List (Assignment fl) × Assoc (WaitReason fl) → Type 0
  Settles due out = All (λ a. OnOpen a.resolved) out.0 × All (IsPlaced out) due

  IsPlaced-grow_left :
      (a : Assignment fl) (out : List (Assignment fl) × Assoc (WaitReason fl)) (ts : List Task)
      → All (IsPlaced out) ts
      → All (IsPlaced (a ∷ out.0, out.1)) ts
  IsPlaced-grow_left a out [] h = tt
  IsPlaced-grow_left a out (t ∷ ts) (inl p, h) = (inl (inr p), IsPlaced-grow_left a out ts h)
  IsPlaced-grow_left a out (t ∷ ts) (inr p, h) = (inr p, IsPlaced-grow_left a out ts h)

  IsPlaced-grow_right :
      (w : Text × WaitReason fl) (out : List (Assignment fl) × Assoc (WaitReason fl))
      (ts : List Task)
      → All (IsPlaced out) ts
      → All (IsPlaced (out.0, w ∷ out.1)) ts
  IsPlaced-grow_right w out [] h = tt
  IsPlaced-grow_right w out (t ∷ ts) (inl p, h) = (inl p, IsPlaced-grow_right w out ts h)
  IsPlaced-grow_right w out (t ∷ ts) (inr p, h) = (inr (inr p), IsPlaced-grow_right w out ts h)

  add_placing-Settles :
      (t : Task) (ts : List Task) (p : Placing fl)
      (rest : List (Assignment fl) × Assoc (WaitReason fl))
      → IsFair t p
      → Settles ts rest
      → Settles (t ∷ ts) (add_placing fl t p rest)
  add_placing-Settles t ts (assigned a) rest f h =
      ((f.1, h.0), (inl (inl f.0), IsPlaced-grow_left a rest ts h.1))
  add_placing-Settles t ts (waits w) rest f h =
      (h.0, (inr (inl refl), IsPlaced-grow_right (t.id, w) rest ts h.1))

  assign_from-Settles :
      (set : Set fl) (st : Option State) (backfill : fl.F) (planned : Assoc ℕ) (due : List Task)
      → Settles due (assign_from fl su set e st backfill planned due)
  unfolding assign_from
  assign_from-Settles set st backfill planned [] = (tt, tt)
  assign_from-Settles set st backfill planned (t ∷ ts) =
      let placing = place_task fl su set e st backfill planned t in
      add_placing-Settles t ts placing
        (assign_from fl su set e st backfill (plan fl placing planned) ts)
        (place_task-IsFair set st backfill planned t)
        (assign_from-Settles set st backfill (plan fl placing planned) ts)

  -- A tick sends no task to a provider whose gate is closed, and no due task disappears: each is
  -- assigned, or has a reason to wait under its id.
  pub assign-Settles :
      (set : Set fl) (st : Option State) (backfill : fl.F) (due : List Task)
      → Settles due (assign fl su set e st backfill due)
  unfolding assign
  assign-Settles set st backfill due = assign_from-Settles set st backfill [] due
