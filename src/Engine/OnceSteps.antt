-- ===== src/Engine/OnceSteps.antt =====
-- The marks of running and of completion after each lock step of internal/engine/engine.go.
use claudeq.Prelude.{
  ◌≡◌, refl, ap, sym, ◌∙◌, Bool, true, false, not, ◌&&◌, Option, none, some, List, [], ◌∷◌, ◌++◌,
  Text, ◌==◌, All, map, if◌then◌else◌, arith,
}
use mathlib.Core.Path.{subst}
use claudeq.Prelude.Floats.{Floats}
use claudeq.Prelude.Strings.{Time}
use claudeq.Prelude.Assoc.{Assoc}
use claudeq.Prelude.Result.{ok}
use claudeq.Prelude.Filter.{Distinct}
use claudeq.Task.Model.{Task}
use claudeq.Store.Run.{Run, RunStatus}
use claudeq.Store.State.{State, is_completed_once, is_marked, record_start, record_run, forget_task}
use claudeq.Workflow.Dependencies.{Dependency}
use claudeq.Provider.Health.{Health}
use claudeq.Engine.State.{Engine, seed_cron_anchors}
use claudeq.Engine.Start.{launch_task, take_slot}
use claudeq.Engine.Assign.{Assignment}
use claudeq.Engine.Announce.{Announcement}
use claudeq.Engine.Active.{launch_task-active}
use claudeq.Engine.Tick.{Hold, Cleared, Launch, tasks_of, tick_locked, Ticked}
use claudeq.Engine.Starts.{tick_locked-All}
use claudeq.Engine.Fresh.{is_due-fresh, seed-completed, tick_locked-IsTidy}
use claudeq.Engine.Finish.{Outcome, one_shot_trigger}
use claudeq.Engine.Steps.{start_by_hand, settle_state, leave}
use claudeq.Engine.Lifecycle.{
  Happening, started, started_by_hand, forgotten, Live, live_of, completion, written,
}
use claudeq.Engine.LifecycleLaws.{
  completed_since, same-KeepsMarks, settle_state-KeepsMarks, settle_state-completes,
  settle_state-active, forget_task-completed, live_ids, live_ids-phase, leave_ids, IsActive,
}
use claudeq.Engine.Once.{
  Snapshot, IsOrderly, IsFresh, quiet-IsOrderly, phase-IsOrderly, complete-IsOrderly,
}
use claudeq.Engine.OnceStarts.{started_live, starts-IsOrderly, launched-IsOrderly}

pub hand-IsOrderly :
    (e e' : Engine) (ls : List Live) (tr : List Happening) (t : Task) (made : Text × Run)
    (now : Time)
    → start_by_hand t made.0 made.1 now e ≡ some e'
    → IsOrderly e none ls tr
    → IsOrderly e' none (live_of t made ∷ ls) (started_by_hand t ∷ tr)
unfolding start_by_hand launch_task take_slot record_run record_start
hand-IsOrderly e e' ls tr t made now h o =
    let recorded : Engine = record e {
      state = record_run t.id now (record_start t.id now e.state);
    } in
    let (idle_, same) =
      by_test (is_marked t.id e.active) (launch_task t made.0 made.1 recorded) h in
    subst (λ (x : Engine). IsOrderly x none (live_of t made ∷ ls) (started_by_hand t ∷ tr)) same
      (launched-IsOrderly e (launch_task t made.0 made.1 recorded) ls tr t made idle_
        (launch_task-active t made.0 made.1 recorded) (ground arith) o)
  where
    by_test :
        (b : Bool) (x : Engine) → (if b then none else some x) ≡ some e' → (b ≡ false) × (x ≡ e')
    by_test true x k = cc
    by_test false x k = (refl, cc)

module _ (fl : Floats) (parse : Text → Option (Time → Time)) where
  every : (todo : List (Assignment fl)) → All (λ _. Unit {0}) todo
  every [] = tt
  every (a ∷ rest) = (tt, every rest)

  pub start-IsOrderly :
      (e : Engine) (st : State) (ls : List Live) (tr : List Happening) (made : Launch fl)
      (each : Task → Text × Run) (deps : Assoc (List Dependency)) (health : Assoc Health)
      (now : Time) (todo : List (Assignment fl)) (holds : Assoc (Hold fl)) (announced : Assoc Text)
      (sent : List Announcement) (r : Ticked fl)
      → Distinct (λ (a : Assignment fl). a.task.id) todo
      → tick_locked fl parse made deps health now st (todo, holds) e announced sent ≡ ok r
      → IsOrderly e (some st) ls tr
      → IsOrderly r.engine none
          (started_live (tasks_of fl r.starts) each ls)
          (map (λ (t : Task). started t) (tasks_of fl r.starts) ++ tr)
  unfolding is_completed_once
  start-IsOrderly e st ls tr made each deps health now todo holds announced sent r d h o =
      let s = (seed_cron_anchors e.queue st now).0 in
      let (fresh, marks) =
        tick_locked-All fl parse (λ c. IsFresh e s c.task) (λ _. Unit {0}) made deps health now st
          todo holds e announced sent r d (every todo)
          (λ a _ due_ _. is_due-fresh parse e a.task s deps now due_) h in
      let (tidy, kept) =
        tick_locked-IsTidy fl parse made deps health now st todo holds e announced sent r d h in
      starts-IsOrderly e r.engine st ls tr each (tasks_of fl r.starts) o tidy
        (as_loaded r.starts fresh) marks kept
    where
      as_loaded :
          (cs : List (Cleared fl))
          → All (λ c. IsFresh e (seed_cron_anchors e.queue st now).0 c.task) cs
          → All (IsFresh e st) (tasks_of fl cs)
      as_loaded [] f = tt
      as_loaded (c ∷ cs) f = (
        (
          f.0.0,
          ap (λ (m : Assoc Bool). one_shot_trigger c.task.trigger && is_marked c.task.id m)
                (sym (seed-completed e.queue st now))
              ∙ f.0.1,
        ),
        as_loaded cs f.1,
      )

  mid_active :
      (m : Assoc Bool) (front : List Live) (l : Live) (behind : List Live)
      → IsActive m (live_ids (front ++ l ∷ behind))
      → is_marked l.task.id m ≡ true
  mid_active m [] l behind a = a.0
  mid_active m (k ∷ front) l behind a = mid_active m front l behind a.1

  pub settle-IsOrderly :
      (e : Engine) (held : Option State) (front : List Live) (l : Live) (behind : List Live)
      (tr : List Happening) (status : RunStatus) (now backoff : Time) (res : Outcome)
      → IsOrderly e held (front ++ l ∷ behind) tr
      → IsOrderly
          (settle_state l.task l.provider_id now backoff res status e)
          held
          (front ++ record l { phase = written } ∷ behind)
          (completion l.task status tr)
  settle-IsOrderly e held front l behind tr status now backoff res o =
      let e' = settle_state l.task l.provider_id now backoff res status e in
      let same = settle_state-active l.task l.provider_id now backoff res status e in
      phase-IsOrderly e' held (front ++ l ∷ behind) _ (completion l.task status tr)
        (live_ids-phase front l _ behind refl)
        (complete-IsOrderly e' held (front ++ l ∷ behind) tr l.task status
          (ap (is_marked l.task.id) same ∙ mid_active e.active front l behind o.marked)
          (settle_state-completes l.task l.provider_id now backoff res status e)
          (quiet-IsOrderly e e' held (front ++ l ∷ behind) tr same
            (settle_state-KeepsMarks l.task l.provider_id now backoff res status e) o))

  pub end-IsOrderly :
      (e : Engine) (front : List Live) (l : Live) (behind : List Live) (tr : List Happening)
      → IsOrderly e none (front ++ l ∷ behind) tr
      → IsOrderly (leave l.task.id e) none (front ++ behind) tr
  unfolding leave
  end-IsOrderly e front l behind tr o =
      let (u, m) = leave_ids front l behind e.active o.unlike o.marked in
      record { marked = m; unlike = u; done = o.done; loaded = tt; order = o.order }

  pub forget-IsOrderly :
      (e : Engine) (held : Option State) (ls : List Live) (tr : List Happening) (id : Text)
      → IsOrderly e held ls tr
      → IsOrderly (record e { state = forget_task id e.state }) held ls (forgotten id ∷ tr)
  forget-IsOrderly e held ls tr id o = record {
    marked = o.marked;
    unlike = o.unlike;
    done = λ other c.
        let (gone, before) = both (not (id == other)) (completed_since other tr) c in
        forget_task-completed id other e.state ∙ rw (gone, o.done other before) refl;
    loaded = by_held held o.loaded;
    order = o.order;
  }
    where
      both : (a b : Bool) → (a && b) ≡ true → (a ≡ true) × (b ≡ true)
      both a b k = ground arith

      by_held :
          (h : Option State)
          → Snapshot e h tr
          → Snapshot (record e { state = forget_task id e.state }) h (forgotten id ∷ tr)
      by_held none s = tt
      by_held (some st) s = λ other c. s other (both (not (id == other)) _ c).1

  pub marked-IsOrderly :
      (e e' : Engine) (ls : List Live) (tr : List Happening)
      → e'.active ≡ e.active
      → e'.state ≡ e.state
      → IsOrderly e none ls tr
      → IsOrderly e' none ls tr
  marked-IsOrderly e e' ls tr a s o =
      quiet-IsOrderly e e' none ls tr a
        (same-KeepsMarks e.state e'.state (ap (λ (x : State). x.completed_once) s)) o
