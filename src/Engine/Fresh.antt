-- ===== src/Engine/Fresh.antt =====
-- A tick starts different tasks, none of which runs, and keeps the marks of completed tasks.
use claudeq.Prelude.{
  ◌≡◌, refl, ap, sym, ◌∙◌, Bool, true, false, ◌||◌, ◌&&◌, Option, List, [], ◌∷◌, ◌++◌, Text, ◌==◌,
  All, if◌then◌else◌, arith, not, is_empty,
}
use mathlib.Core.Path.{subst}
use claudeq.Prelude.Floats.{Floats}
use claudeq.Prelude.Strings.{Time}
use claudeq.Prelude.Assoc.{Assoc}
use claudeq.Prelude.Result.{ok, and_then-Passed}
use claudeq.Prelude.Filter.{All-front, Distinct}
use claudeq.Task.Model.{Task, Trigger, asap, fixed, cron, unknown_trigger}
use claudeq.Store.Run.{Run}
use claudeq.Store.State.{State, is_completed_once, is_marked, record_start, record_run, last_start}
use claudeq.Workflow.Dependencies.{Dependency}
use claudeq.Schedule.Due
use claudeq.Schedule.DueLaws.{TriggerFires, due_iff}
use claudeq.Schedule.Select.{select}
use claudeq.Schedule.SelectLaws.{select-IsAdmissible}
use claudeq.Provider.Health.{Health}
use claudeq.Engine.State.{Engine, is_due, seed_cron_anchors, running_state, or_zero, met}
use claudeq.Engine.Start.{launch_task, launch_all, start_due, take_slot, record_starts}
use claudeq.Engine.Assign.{Assignment}
use claudeq.Engine.Announce.{Announcement}
use claudeq.Engine.Finish.{one_shot_trigger}
use claudeq.Engine.Tick.{
  Hold, Cleared, Sifted, Launch, sift_all, tasks_of, tick_locked, finish_tick, ready_from, Ticked,
}
use claudeq.Engine.TickLaws.{passing, passing-Distinct, sift_all-passing}
use claudeq.Engine.Starts.{tasks_of-placed, ticked_injective}

pub seed-completed :
    (ts : List Task) (s : State) (now : Time)
    → (seed_cron_anchors ts s now).0.completed_once ≡ s.completed_once
unfolding seed_cron_anchors record_start
seed-completed [] s now = refl
seed-completed (t ∷ ts) s now =
    ground (arith, seed-completed ts s now, seed-completed ts (record_start t.id now s) now)

record_starts-completed :
    (ts : List Task) (now : Time) (s : State)
    → (record_starts ts now s).completed_once ≡ s.completed_once
unfolding record_starts record_start record_run
record_starts-completed [] now s = refl
record_starts-completed (t ∷ ts) now s =
    record_starts-completed ts now (record_run t.id now (record_start t.id now s))

launch_all-state :
    (ts : List Task) (made : Task → Text × Run) (e : Engine)
    → (launch_all ts made e).state ≡ e.state
unfolding launch_all launch_task take_slot
launch_all-state [] made e = refl
launch_all-state (t ∷ ts) made e =
    launch_all-state ts made (launch_task t (made t).0 (made t).1 e) ∙ ground arith

start_due-completed :
    (runnable : List Task) (made : Task → Text × Run) (now : Time) (e : Engine)
    → (start_due runnable made now e).state.completed_once ≡ e.state.completed_once
unfolding start_due
start_due-completed runnable made now e =
    ap (λ (s : State). s.completed_once)
      (launch_all-state (select runnable (running_state e)) made _)
    ∙ record_starts-completed (select runnable (running_state e)) now e.state

module _ (fl : Floats) where
  cleared-Distinct :
      (cs : List (Cleared fl))
      → Distinct (λ (c : Cleared fl). c.task.id) cs
      → Distinct (λ (t : Task). t.id) (tasks_of fl cs)
  cleared-Distinct [] h = tt
  cleared-Distinct (c ∷ cs) h = (apart cs h.0, cleared-Distinct cs h.1)
    where
      apart :
          (ds : List (Cleared fl))
          → All (λ d. (d.task.id == c.task.id) ≡ false) ds
          → All (λ t. (t.id == c.task.id) ≡ false) (tasks_of fl ds)
      apart [] p = tt
      apart (d ∷ ds) p = (p.0, apart ds p.1)

Distinct-front :
    (xs ys : List Task)
    → Distinct (λ (t : Task). t.id) (xs ++ ys)
    → Distinct (λ (t : Task). t.id) xs
Distinct-front [] ys h = tt
Distinct-front (x ∷ xs) ys h = (All-front _ xs ys h.0, Distinct-front xs ys h.1)

-- A task that is due does not run, and is not a one-shot task that has completed.
pub is_due-fresh :
    (parse : Text → Option (Time → Time)) (e : Engine) (t : Task) (s : State)
    (deps : Assoc (List Dependency)) (now : Time)
    → is_due parse e t s deps now ≡ ok true
    → (is_marked t.id e.active ≡ false)
      × ((one_shot_trigger t.trigger && is_completed_once s t.id) ≡ false)
unfolding is_due
is_due-fresh parse e t s deps now h =
    let i : Due.Inputs = record {
      now = now;
      running = is_marked t.id e.active;
      completed_once = is_completed_once s t.id;
      cron_anchor = or_zero (last_start s t.id);
      dependencies_met = met deps t.id;
    } in
    let d = (due_iff parse t i).0 h in (d.idle, by_kind t.trigger i d.fires)
  where
    by_kind :
        (tr : Trigger) (i : Due.Inputs)
        → TriggerFires parse tr t i
        → (one_shot_trigger tr && i.completed_once) ≡ false
    by_kind asap i f = f
    by_kind fixed i f = f.0
    by_kind cron i f = refl
    by_kind (unknown_trigger tr) i f = absurd f

module _ (fl : Floats) (parse : Text → Option (Time → Time)) (made : Launch fl)
    (deps : Assoc (List Dependency)) (health : Assoc Health) (now : Time) (snapshot : State)
    (todo : List (Assignment fl)) (holds : Assoc (Hold fl)) (e : Engine) (announced : Assoc Text)
    (sent : List Announcement) where
  finished-completed :
      (seeded : Bool) (out : Sifted fl)
      → (finish_tick fl parse made seeded now e announced sent out).engine.state.completed_once
        ≡ e.state.completed_once
  finished-completed seeded out =
      by_test (seeded || not (is_empty (select (tasks_of fl out.0) (running_state e))))
    where
      by_test :
          (b : Bool)
          → (start_due (tasks_of fl out.0) (made (ready_from fl [] out.0)) now (
              if b
              then record e { state = (seed_cron_anchors e.queue e.state now).0 }
              else e)).state.completed_once
            ≡ e.state.completed_once
      by_test true =
          start_due-completed (tasks_of fl out.0) (made (ready_from fl [] out.0)) now
            (record e { state = (seed_cron_anchors e.queue e.state now).0 })
          ∙ seed-completed e.queue e.state now
      by_test false = start_due-completed (tasks_of fl out.0) (made (ready_from fl [] out.0)) now e

  abbrev IsTidy : Ticked fl → Type 0
  IsTidy r =
      Distinct (λ (t : Task). t.id) (tasks_of fl r.starts)
      × (r.engine.state.completed_once ≡ e.state.completed_once)

  pub tick_locked-IsTidy :
      (r : Ticked fl)
      → Distinct (λ (a : Assignment fl). a.task.id) todo
      → tick_locked fl parse made deps health now snapshot (todo, holds) e announced sent ≡ ok r
      → Distinct (λ (t : Task). t.id) (tasks_of fl r.starts)
        × (r.engine.state.completed_once ≡ e.state.completed_once)
  unfolding tick_locked
  tick_locked-IsTidy r distinct h =
      let (s, seeded) = seed_cron_anchors e.queue snapshot now in
      let (out, sifted, done) =
        and_then-Passed (sift_all fl parse e s deps health now todo ([], holds)) _ h in
      let cs = passing fl parse e s deps health now todo in
      let is_out = sift_all-passing fl parse e s deps health now todo ([], holds) out sifted in
      subst IsTidy (ticked_injective fl parse _ r done) (
        subst (Distinct (λ (t : Task). t.id)) (sym (tasks_of-placed fl _ _)) (
            subst
              (λ (ys : List (Cleared fl)).
                Distinct (λ (t : Task). t.id) (select (tasks_of fl ys) (running_state e)))
              (sym is_out)
              (let fair = select-IsAdmissible (tasks_of fl cs) (running_state e) in
                Distinct-front (select (tasks_of fl cs) (running_state e)) fair.rest (
                  subst (Distinct (λ (t : Task). t.id)) fair.front (
                    cleared-Distinct fl cs
                      (passing-Distinct fl parse e s deps health now todo distinct))))),
        finished-completed seeded out,
      )
