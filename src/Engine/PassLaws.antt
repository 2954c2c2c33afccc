-- ===== src/Engine/PassLaws.antt =====
-- What a whole tick starts.
use claudeq.Prelude.{
  ◌≡◌, ap, sym, ◌∙◌, Bool, false, Option, List, [], ◌∷◌, Text, ◌==◌, All, keep_if, if◌then◌else◌, ℕ,
}
use mathlib.Core.Path.{subst}
use claudeq.Prelude.Floats.{Floats}
use claudeq.Prelude.Strings.{Time}
use claudeq.Prelude.Assoc.{Assoc}
use claudeq.Prelude.Result.{Result, ok, and_then-Passed}
use claudeq.Prelude.Filter.{All-map, Distinct}
use claudeq.Task.Model.{Task}
use claudeq.Store.State.{State}
use claudeq.Workflow.Dependencies.{Dependency}
use claudeq.Schedule.Due.{DueProblem}
use claudeq.Provider.Set.{Set}
use claudeq.Engine.State.{Engine, is_due}
use claudeq.Engine.Assign.{
  Surroundings, Assignment, WaitReason, Placing, assigned, waits, assign_from, place_task, plan,
  add_placing,
}
use claudeq.Engine.AssignLaws.{OnOpen, IsFair, place_task-IsFair}
use claudeq.Engine.Tick.{due_from}
use claudeq.Engine.TickLaws.{says_yes}

ok_injective : (x y : List Task) → ◌≡◌ {A = Result DueProblem (List Task)} (ok x) (ok y) → x ≡ y
ok_injective x y h = cc

module _ (parse : Text → Option (Time → Time)) (e : Engine) (s : State)
    (deps : Assoc (List Dependency)) (now : Time) where
  -- `dueTasks` keeps the tasks that are due, in the order of the queue.
  pub due_from-keep_if :
      (ts due : List Task)
      → due_from parse e s deps now ts ≡ ok due
      → due ≡ keep_if (λ t. says_yes (is_due parse e t s deps now)) ts
  unfolding due_from keep_if
  due_from-keep_if [] due h = cc
  due_from-keep_if (t ∷ ts) due h =
      let (b, is_now, more) = and_then-Passed (is_due parse e t s deps now) _ h in
      let (rest, others, put) = and_then-Passed (due_from parse e s deps now ts) _ more in
      sym (ok_injective _ _ put)
      ∙ (ap (λ (xs : List Task). if b then t ∷ xs else xs) (due_from-keep_if ts rest others)
          ∙ ap
              (λ (d : Result DueProblem Bool).
                if says_yes d
                then t ∷ keep_if (λ u. says_yes (is_due parse e u s deps now)) ts
                else keep_if (λ u. says_yes (is_due parse e u s deps now)) ts)
              (sym is_now))

module _ (fl : Floats) (su : Surroundings fl) (set : Set fl) (e : Engine) (st : Option State)
    (backfill : fl.F) where
  -- What holds of every due task holds of every assigned one, and its provider is open.
  pub assign_from-All :
      (P : Task → Type 0) (planned : Assoc ℕ) (due : List Task)
      → All P due
      → All
          (λ a. P a.task × OnOpen fl su e a.resolved)
          (assign_from fl su set e st backfill planned due).0
  unfolding assign_from
  assign_from-All P planned [] h = tt
  assign_from-All P planned (t ∷ ts) h =
      let placing = place_task fl su set e st backfill planned t in
      added placing (place_task-IsFair fl su e set st backfill planned t) _
        (assign_from-All P (plan fl placing planned) ts h.1)
    where
      added :
          (p : Placing fl)
          → IsFair fl su e t p
          → (rest : List (Assignment fl) × Assoc (WaitReason fl))
          → All (λ a. P a.task × OnOpen fl su e a.resolved) rest.0
          → All (λ a. P a.task × OnOpen fl su e a.resolved) (add_placing fl t p rest).0
      added (assigned a) fair rest more = ((subst P (sym fair.0) h.0, fair.1), more)
      added (waits w) fair rest more = more

  pub assign_from-Distinct :
      (planned : Assoc ℕ) (due : List Task)
      → Distinct (λ (t : Task). t.id) due
      → Distinct
          (λ (a : Assignment fl). a.task.id)
          (assign_from fl su set e st backfill planned due).0
  unfolding assign_from
  assign_from-Distinct planned [] h = tt
  assign_from-Distinct planned (t ∷ ts) h =
      let placing = place_task fl su set e st backfill planned t in
      let rest = assign_from fl su set e st backfill (plan fl placing planned) ts in
      added placing (place_task-IsFair fl su e set st backfill planned t) rest
        (All-map (λ (a : Assignment fl) k. k.0) rest.0
          (assign_from-All (λ u. (u.id == t.id) ≡ false) (plan fl placing planned) ts h.0))
        (assign_from-Distinct (plan fl placing planned) ts h.1)
    where
      added :
          (p : Placing fl)
          → IsFair fl su e t p
          → (rest : List (Assignment fl) × Assoc (WaitReason fl))
          → All (λ a. (a.task.id == t.id) ≡ false) rest.0
          → Distinct (λ (a : Assignment fl). a.task.id) rest.0
          → Distinct (λ (a : Assignment fl). a.task.id) (add_placing fl t p rest).0
      added (assigned a) fair rest apart more = (
        subst (λ (u : Task). All (λ b. (b.task.id == u.id) ≡ false) rest.0) (sym fair.0) apart,
        more,
      )
      added (waits w) fair rest apart more = more
