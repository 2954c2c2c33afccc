-- ===== src/Engine/Finish.antt =====
-- `finish`, `retire` and `quietDrop`: what the end of a run changes.
use claudeq.Prelude.{
  ℕ, ◌+◌, ◌-◌, Bool, true, false, not, ◌&&◌, Option, none, some, List, [], ◌∷◌, ◌++◌, Text, codes,
  if◌then◌else◌, ltb, is_empty,
}
use claudeq.Prelude.Strings.{Time, is_zero, after}
use claudeq.Prelude.Int.{ℤ}
use claudeq.Prelude.Assoc.{Assoc, lookup, insert, delete}
use claudeq.Task.Model.{Task, Trigger, asap, fixed}
use claudeq.Store.Run.{Run, RunStatus}
use claudeq.Store.State.{set_pending_resume, clear_pending_resume, mark_completed_once, is_marked}
use claudeq.Store.History.{prune_history}
use claudeq.Limit.Gate.{blocked_until}
use claudeq.Limit.Gates.{Gates, gate_for, block_provider}
use claudeq.Queue.Order.{index_of, remove_at}
use claudeq.Engine.Output.{clip_output}
use claudeq.Engine.State.{Engine}
use claudeq.Engine.Start.{or_no_runs}

-- What the runner answers, with its message in words.
pub record Outcome : Type 0 where
  pub session_id : Text
  pub model : Text
  pub status : RunStatus
  pub message : Text
  pub exit_code : ℤ
  pub retry_after : Time
  pub reset_at : Time
  pub final_output : Text

abbrev is_success : RunStatus → Bool
is_success RunStatus.success = true
is_success _ = false

abbrev pub is_paused : RunStatus → Bool
is_paused RunStatus.rate_limited = true
is_paused _ = false

unfoldable pub quiet_drop : Task → RunStatus → Bool
quiet_drop t status = t.quiet_history && is_success status

abbrev pub one_shot_trigger : Trigger → Bool
one_shot_trigger asap = true
one_shot_trigger fixed = true
one_shot_trigger _ = false

-- `runningOn[id]--`, and no entry at zero.
unfoldable pub count_down : Text → Assoc ℕ → Assoc ℕ
unfolding lookup insert delete
count_down id m =
    if is_empty id
    then m
    else if ltb 1 (or_no_runs (lookup id m))
    then insert id (or_no_runs (lookup id m) - 1) m
    else delete id m

unfoldable pub give_slot : Bool → Engine → Engine
give_slot parallel e =
    if parallel
    then record e { parallel_active = e.parallel_active - 1 }
    else record e { non_parallel_active = e.non_parallel_active - 1 }

abbrev pub failure : Option Text → Outcome → RunStatus × Option Text
failure (some problem) res = (RunStatus.failed, some problem)
failure none res = (res.status, if is_empty res.message then none else some res.message)

-- The status and the error of the record; `none` leaves its error as it was.
unfoldable pub final_status : Bool → Bool → Outcome → Option Text → RunStatus × Option Text
final_status canceled takeover res run_err =
    let ended = failure run_err res in
    if canceled && not (is_success ended.0)
    then (
      RunStatus.canceled,
      some (
          if takeover
          then codes "taken over in Terminal by the user"
          else codes "stopped by the user"),
    )
    else ended

abbrev or_kept : Option Text → Text → Text
or_kept none old = old
or_kept (some new) old = new

unfoldable pub finish_record : Time → Bool → Bool → Outcome → Option Text → Run → Run
unfolding final_status clip_output
finish_record now canceled takeover res run_err rec =
    let ended = final_status canceled takeover res run_err in
    record rec {
      finished_at = some now;
      exit_code = res.exit_code;
      status = ended.0;
      session_id = if is_empty res.session_id then rec.session_id else res.session_id;
      provider =
          if is_empty res.model
          then rec.provider
          else record rec.provider { reported_model = res.model };
      error = or_kept ended.1 rec.error;
      final_output = (clip_output res.final_output).0;
      final_output_truncated = (clip_output res.final_output).1;
    }

-- `RateLimitResetBuffer`
abbrev pub reset_buffer : Time
reset_buffer = 60000000000

-- How long a rate limit closes the gate: until it resets, or for a delay.
unfoldable pub limit_end : Time → Time → Outcome → Time
limit_end now backoff res =
    if not (is_zero res.reset_at) && after res.reset_at now
    then res.reset_at + reset_buffer
    else now + (if ltb 0 res.retry_after then res.retry_after else backoff)

abbrev pub take_out : Option ℕ → List Task → List Task
take_out none ts = ts
take_out (some i) ts = remove_at i ts

-- `retire`
unfoldable pub retire : Text → Bool → Engine → Engine
unfolding clear_pending_resume mark_completed_once index_of remove_at
retire id one_shot e =
    if one_shot
    then record e {
      state = mark_completed_once id (clear_pending_resume id e.state);
      queue = take_out (index_of e.queue id) e.queue;
    }
    else record e { state = clear_pending_resume id e.state }

-- What the status of the run does to the gate and the session that waits.
unfoldable pub settle : Task → Text → Time → Time → Outcome → RunStatus → Engine → Engine
unfolding limit_end block_provider set_pending_resume retire
settle t provider_id now backoff res status e =
    if is_paused status
    then record e {
      gates = block_provider e.gates provider_id (limit_end now backoff res);
      state = set_pending_resume t.id res.session_id provider_id e.state;
    }
    else retire t.id (one_shot_trigger t.trigger) e

abbrev some_time : Time → Option Time
some_time t = if is_zero t then none else some t

-- When the session is planned to continue, for a paused run.
unfoldable pub with_resume : Time → Text → Gates → Run → Run
unfolding blocked_until gate_for
with_resume now provider_id gates rec =
    if is_paused rec.status
    then elim (some_time (blocked_until now (gate_for gates provider_id))) [
      | none ↦ rec
      | some at ↦ record rec { resume_at = some at }
    ]
    else rec

-- The maps of a run that are cleared when it ends.
unfoldable pub release : Task → Text → Text → Engine → Engine
unfolding delete count_down give_slot
release t provider_id run_id e = give_slot t.parallel (record e {
  canceled = delete run_id e.canceled;
  takeovers = delete run_id e.takeovers;
  running_on = count_down provider_id e.running_on;
})

-- The history after the run, pruned to its limit.
unfoldable pub record_end : ℕ → Task → Run → List Run → List Run
unfolding quiet_drop prune_history
record_end limit t rec events =
    if quiet_drop t rec.status then events else prune_history limit (events ++ rec ∷ [])

-- `finish`. The clock is read once; `backoff` is the delay for a limit without a known end.
unfoldable pub finish :
    ℕ → Time → Time → Task → Text → Run → Outcome → Option Text → Engine → Engine
unfolding finish_record release settle with_resume record_end is_marked delete
finish history_limit now backoff t provider_id rec res run_err e =
    let canceled = is_marked rec.run_id e.canceled in
    let takeover = is_marked rec.run_id e.takeovers in
    let done = finish_record now canceled takeover res run_err rec in
    let after_end =
      settle t provider_id now backoff res done.status (release t provider_id rec.run_id e) in
    record after_end {
      active = delete t.id after_end.active;
      events =
          record_end history_limit t (with_resume now provider_id after_end.gates done)
            after_end.events;
    }
