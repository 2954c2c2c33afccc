-- ===== src/Engine/Steps.antt =====
-- What internal/engine/engine.go does to a run step by step: each function here is what happens
-- while one lock is held, or in one write of the store.
use claudeq.Prelude.{
  ◌≡◌, refl, Bool, true, false, not, Option, none, some, List, [], ◌∷◌, ◌++◌, Text, codes, ◌==◌,
  if◌then◌else◌, first,
}
use claudeq.Prelude.Strings.{Time}
use claudeq.Prelude.Assoc.{insert, delete}
use claudeq.Prelude.Result.{Result, ok, err}
use claudeq.Task.Model.{Task}
use claudeq.Store.Run.{Run, RunStatus}
use claudeq.Store.State.{
  PendingResume, pending_resume, record_start, record_run, set_pending_resume, clear_pending_resume,
  mark_completed_once, is_marked,
}
use claudeq.Store.History.{runs}
use claudeq.Limit.Gates.{block_provider}
use claudeq.Queue.Order.{index_of}
use claudeq.Engine.State.{Engine}
use claudeq.Engine.Start.{launch_task}
use claudeq.Engine.Finish.{
  Outcome, one_shot_trigger, is_paused, limit_end, retire, settle, take_out,
}

-- `launchTask` as `RunTaskNow` calls it: the start is recorded first. `none` is the refusal of a task
-- that runs already.
unfoldable pub start_by_hand : Task → Text → Run → Time → Engine → Option Engine
unfolding is_marked record_start record_run launch_task
start_by_hand t provider_id rec now e =
    if is_marked t.id e.active
    then none
    else some (
        launch_task t provider_id rec
          (record e { state = record_run t.id now (record_start t.id now e.state) }))

-- `CancelRun` of a run that is in flight; `none` goes on to its planned resume.
unfoldable pub cancel_run : Bool → Text → Engine → Option Engine
unfolding insert
cancel_run in_flight run_id e =
    if in_flight then some (record e { canceled = insert run_id true e.canceled }) else none

pub data CancelProblem : Type 0 where
  not_running not_waiting already_resumed no_longer_scheduled being_stopped : Text → CancelProblem

-- What `TakeOverRun` changes before it waits for the record.
unfoldable pub take_over_run : Bool → Text → Engine → Result CancelProblem Engine
unfolding is_marked insert
take_over_run in_flight run_id e =
    if not in_flight
    then err (not_running run_id)
    else if is_marked run_id e.canceled
    then err (being_stopped run_id)
    else ok (record e {
      takeovers = insert run_id true e.takeovers;
      canceled = insert run_id true e.canceled;
    })

-- `retire` is two writes: the state, then the queue.
unfoldable pub retire_state : Text → Bool → Engine → Engine
unfolding clear_pending_resume mark_completed_once
retire_state id one_shot e =
    if one_shot
    then record e { state = mark_completed_once id (clear_pending_resume id e.state) }
    else record e { state = clear_pending_resume id e.state }

unfoldable pub unqueue : Text → Bool → Engine → Engine
unfolding index_of
unqueue id one_shot e =
    if one_shot then record e { queue = take_out (index_of e.queue id) e.queue } else e

-- What the end of a run does to the gate and the state.
unfoldable pub settle_state : Task → Text → Time → Time → Outcome → RunStatus → Engine → Engine
unfolding limit_end block_provider set_pending_resume retire_state
settle_state t provider_id now backoff res status e =
    if is_paused status
    then record e {
      gates = block_provider e.gates provider_id (limit_end now backoff res);
      state = set_pending_resume t.id res.session_id provider_id e.state;
    }
    else retire_state t.id (one_shot_trigger t.trigger) e

-- `delete(e.active, t.ID)`
unfoldable pub leave : Text → Engine → Engine
unfolding delete
leave id e = record e { active = delete id e.active }

abbrev take_unqueued : Task → RunStatus → Engine → Engine
take_unqueued t status e =
    if is_paused status then e else unqueue t.id (one_shot_trigger t.trigger) e

retire-steps :
    (id : Text) (one_shot : Bool) (e : Engine)
    → retire id one_shot e ≡ unqueue id one_shot (retire_state id one_shot e)
unfolding retire unqueue retire_state
retire-steps id true e = refl
retire-steps id false e = refl

-- The settling of a run is its two writes, one after the other.
pub settle-steps :
    (t : Task) (id : Text) (now backoff : Time) (res : Outcome) (status : RunStatus) (e : Engine)
    → settle t id now backoff res status e
      ≡ take_unqueued t status (settle_state t id now backoff res status e)
unfolding settle settle_state
settle-steps t id now backoff res status e = by_pause (is_paused status)
  where
    by_pause :
        (b : Bool)
        → (if b
            then record e {
              gates = block_provider e.gates id (limit_end now backoff res);
              state = set_pending_resume t.id res.session_id id e.state;
            }
            else retire t.id (one_shot_trigger t.trigger) e)
          ≡ (let e' : Engine =
                if b
                then record e {
                  gates = block_provider e.gates id (limit_end now backoff res);
                  state = set_pending_resume t.id res.session_id id e.state;
                }
                else retire_state t.id (one_shot_trigger t.trigger) e in
              if b then e' else unqueue t.id (one_shot_trigger t.trigger) e')
    by_pause true = refl
    by_pause false = retire-steps t.id (one_shot_trigger t.trigger) e

abbrev session_of_run : Option PendingResume → Text → Bool
session_of_run none session = false
session_of_run (some p) session = p.session_id == session

abbrev pub task_trigger_one_shot : Option Task → Bool
task_trigger_one_shot none = false
task_trigger_one_shot (some t) = one_shot_trigger t.trigger

-- `isOneShot`: the queued task decides, then the snapshot of the run.
unfoldable pub is_one_shot : List Task → Run → Bool
unfolding first
is_one_shot queue rec = elim (first (λ t. t.id == rec.task_id) queue) [
  | some t ↦ one_shot_trigger t.trigger
  | none ↦ task_trigger_one_shot rec.task
]

abbrev or_now : Option Time → Time → Option Time
or_now none now = some now
or_now (some at) now = some at

-- The record of a dropped resume.
unfoldable pub drop_record : Time → Run → Run
drop_record now rec = record rec {
  status = RunStatus.canceled;
  resume_at = none;
  error = codes "resume canceled by the user";
  finished_at = or_now rec.finished_at now;
}

abbrev drop_found : Text → Time → Option Run → Engine → Result CancelProblem Engine
drop_found run_id now none e = err (not_running run_id)
drop_found run_id now (some rec) e =
    if not (is_paused rec.status)
    then err (not_waiting run_id)
    else if is_marked rec.task_id e.active
    then err (already_resumed run_id)
    else if not (session_of_run (pending_resume e.state rec.task_id) rec.session_id)
    then err (no_longer_scheduled run_id)
    else (let one_shot = is_one_shot e.queue rec in
        let e' : Engine = unqueue rec.task_id one_shot (retire_state rec.task_id one_shot e) in
        ok (record e' { events = e'.events ++ drop_record now rec ∷ [] }))

-- `cancelResume`, with nothing else between its look and its writes.
unfoldable pub cancel_resume : Text → Time → Engine → Result CancelProblem Engine
unfolding runs first is_marked pending_resume is_one_shot unqueue retire_state drop_record
cancel_resume run_id now e =
    drop_found run_id now (first (λ r. r.run_id == run_id) (runs e.events)) e
