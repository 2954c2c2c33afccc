-- ===== src/Engine/Lifecycle.antt =====
-- The life of a run among other runs, ticks and requests: every order of the steps that the locks of
-- internal/engine/engine.go allow. A tick holds the lock from the moment it loads the state until its
-- runs are launched; what a run writes to the store when it ends may fall in between.
use claudeq.Prelude.{
  ◌≡◌, Bool, not, ◌&&◌, Option, none, some, List, [], ◌∷◌, ◌++◌, Text, map, if◌then◌else◌,
}
use claudeq.Prelude.Floats.{Floats}
use claudeq.Prelude.Strings.{Time}
use claudeq.Prelude.Assoc.{Assoc}
use claudeq.Prelude.Result.{ok}
use claudeq.Prelude.Filter.{Distinct}
use claudeq.Task.Model.{Task}
use claudeq.Store.Run.{Run, RunStatus}
use claudeq.Store.State.{State, forget_task}
use claudeq.Workflow.Dependencies.{Dependency}
use claudeq.Provider.Health.{Health}
use claudeq.Engine.State.{Engine}
use claudeq.Engine.Assign.{Assignment}
use claudeq.Engine.Announce.{Announcement}
use claudeq.Engine.Tick.{Hold, Launch, tick_locked, Ticked, tasks_of}
use claudeq.Engine.Finish.{Outcome, one_shot_trigger, is_paused, release}
use claudeq.Engine.Steps.{
  start_by_hand, cancel_run, take_over_run, retire_state, settle_state, leave,
}

-- How far the end of a run has come.
pub data Phase : Type 0 where
  going : Phase
  released : RunStatus → Phase
  written : Phase

pub record Live : Type 0 where
  pub task : Task
  pub provider_id : Text
  pub run : Run
  pub phase : Phase

-- What happened, newest first: starts by a tick and by hand, tasks of which a run that was launched
-- with a one-shot trigger came to an end, and tasks whose state was forgotten since they left the
-- queue.
pub data Happening : Type 0 where
  started : Task → Happening
  started_by_hand : Task → Happening
  completed : Text → Happening
  forgotten : Text → Happening

abbrev pub live_of : Task → Text × Run → Live
live_of t made = record { task = t; provider_id = made.0; run = made.1; phase = going }

abbrev pub completion : Task → RunStatus → List Happening → List Happening
completion t status tr =
    if not (is_paused status) && one_shot_trigger t.trigger then completed t.id ∷ tr else tr

module _ (fl : Floats) (parse : Text → Option (Time → Time)) where
  -- The engine, the state that a tick in its lock has loaded, the runs, and what happened.
  pub data Reached : Engine → Option State → List Live → List Happening → Type 0 where
    idle : (e : Engine) → e.active ≡ [] → Reached e none [] []
    lock :
        (e : Engine) (ls : List Live) (tr : List Happening)
        → Reached e none ls tr
        → Reached e (some e.state) ls tr
    -- The tick starts nothing, since it ran into an error.
    give_up :
        (e : Engine) (st : State) (ls : List Live) (tr : List Happening)
        → Reached e (some st) ls tr
        → Reached e none ls tr
    -- Whatever the tick found out before it took the lock. The queue has no id twice, so the
    -- assignments have none either.
    start :
        (e : Engine) (st : State) (ls : List Live) (tr : List Happening)
        → Reached e (some st) ls tr
        → (made : Launch fl) (each : Task → Text × Run) (deps : Assoc (List Dependency))
          (health : Assoc Health) (now : Time) (todo : List (Assignment fl))
          (holds : Assoc (Hold fl)) (announced : Assoc Text) (sent : List Announcement)
          (r : Ticked fl)
        → Distinct (λ (a : Assignment fl). a.task.id) todo
        → tick_locked fl parse made deps health now st (todo, holds) e announced sent ≡ ok r
        → Reached r.engine none
            (map (λ (t : Task). live_of t (each t)) (tasks_of fl r.starts) ++ ls)
            (map (λ (t : Task). started t) (tasks_of fl r.starts) ++ tr)
    by_hand :
        (e : Engine) (ls : List Live) (tr : List Happening)
        → Reached e none ls tr
        → (t : Task) (made : Text × Run) (now : Time) (e' : Engine)
        → start_by_hand t made.0 made.1 now e ≡ some e'
        → Reached e' none (live_of t made ∷ ls) (started_by_hand t ∷ tr)
    stop :
        (e : Engine) (ls : List Live) (tr : List Happening)
        → Reached e none ls tr
        → (in_flight : Bool) (run_id : Text) (e' : Engine) → cancel_run in_flight run_id e ≡ some e'
        → Reached e' none ls tr
    take_over :
        (e : Engine) (ls : List Live) (tr : List Happening)
        → Reached e none ls tr
        → (in_flight : Bool) (run_id : Text) (e' : Engine)
        → take_over_run in_flight run_id e ≡ ok e'
        → Reached e' none ls tr
    -- The write of a dropped resume, which falls at any time after its look.
    drop_resume :
        (e : Engine) (held : Option State) (ls : List Live) (tr : List Happening)
        → Reached e held ls tr
        → (id : Text) (one_shot : Bool) → Reached (retire_state id one_shot e) held ls tr
    -- The three steps of the end of a run.
    free :
        (e : Engine) (front : List Live) (l : Live) (behind : List Live) (tr : List Happening)
        → Reached e none (front ++ l ∷ behind) tr
        → l.phase ≡ going
        → (status : RunStatus)
        → Reached
            (release l.task l.provider_id l.run.run_id e)
            none
            (front ++ record l { phase = released status } ∷ behind)
            tr
    write_end :
        (e : Engine) (held : Option State) (front : List Live) (l : Live) (behind : List Live)
        (tr : List Happening)
        → Reached e held (front ++ l ∷ behind) tr
        → (status : RunStatus) → l.phase ≡ released status
        → (now backoff : Time) (res : Outcome)
        → Reached
            (settle_state l.task l.provider_id now backoff res status e)
            held
            (front ++ record l { phase = written } ∷ behind)
            (completion l.task status tr)
    end :
        (e : Engine) (front : List Live) (l : Live) (behind : List Live) (tr : List Happening)
        → Reached e none (front ++ l ∷ behind) tr
        → l.phase ≡ written
        → Reached (leave l.task.id e) none (front ++ behind) tr
    -- Edits of the queue and of the history, at any time.
    edit :
        (e : Engine) (held : Option State) (ls : List Live) (tr : List Happening)
        → Reached e held ls tr
        → (queue : List Task) (events : List Run)
        → Reached (record e { queue = queue; events = events }) held ls tr
    -- Writes to the state that are about something else than completed tasks.
    note :
        (e : Engine) (held : Option State) (ls : List Live) (tr : List Happening)
        → Reached e held ls tr
        → (state : State) → state.completed_once ≡ e.state.completed_once
        → Reached (record e { state = state }) held ls tr
    -- A task is removed from the queue, which forgets its state.
    remove :
        (e : Engine) (held : Option State) (ls : List Live) (tr : List Happening)
        → Reached e held ls tr
        → (id : Text)
        → Reached (record e { state = forget_task id e.state }) held ls (forgotten id ∷ tr)
