-- ===== src/Engine/FinishLaws.antt =====
-- What a finished run leaves for the next one of its task.
use claudeq.Prelude.{
  ℕ, ◌≡◌, refl, ap, ◌∙◌, Bool, true, false, not, ◌&&◌, ◌||◌, Option, none, some, Text, ◌==◌,
  if◌then◌else◌, arith,
}
use claudeq.Prelude.Strings.{Time}
use claudeq.Prelude.Assoc.{lookup, lookup-insert, lookup-delete}
use claudeq.Task.Model.{Task}
use claudeq.Store.Run.{Run, RunStatus}
use claudeq.Store.State.{
  State, is_completed_once, is_marked, set_pending_resume, clear_pending_resume,
  mark_completed_once,
}
use claudeq.Engine.State.{Engine}
use claudeq.Engine.Finish.{
  Outcome, release, retire, settle, finish, one_shot_trigger, final_status, finish_record,
  is_paused, give_slot,
}

-- Whether a run ends as a pause for a rate limit.
abbrev pub ends_paused : Run → Outcome → Option Text → Engine → Bool
ends_paused rec res run_err e =
    is_paused
      (final_status (is_marked rec.run_id e.canceled) (is_marked rec.run_id e.takeovers) res
        run_err).0

pub release-state :
    (t : Task) (id run_id : Text) (e : Engine) → (release t id run_id e).state ≡ e.state
unfolding release give_slot
release-state t id run_id e = ground arith

retire-pending :
    (id other : Text) (one_shot : Bool) (e : Engine)
    → lookup other (retire id one_shot e).state.pending_resumes
      ≡ (if id == other then none else lookup other e.state.pending_resumes)
unfolding retire clear_pending_resume mark_completed_once
retire-pending id other true e = lookup-delete id other e.state.pending_resumes
retire-pending id other false e = lookup-delete id other e.state.pending_resumes

settle-pending :
    (t : Task) (id other : Text) (now backoff : Time) (res : Outcome) (status : RunStatus)
    (paused : Bool) (e : Engine)
    → is_paused status ≡ paused
    → lookup other (settle t id now backoff res status e).state.pending_resumes ≡ (
        if t.id == other
        then (if paused
            then some (record { session_id = res.session_id; provider_id = id })
            else none)
        else lookup other e.state.pending_resumes)
unfolding settle set_pending_resume
settle-pending t id other now backoff res status true e h = rw h (
    lookup-insert t.id other (record { session_id = res.session_id; provider_id = id })
      e.state.pending_resumes)
settle-pending t id other now backoff res status false e h =
    rw h (retire-pending t.id other (one_shot_trigger t.trigger) e)

retire-completed :
    (id other : Text) (one_shot : Bool) (e : Engine)
    → is_completed_once (retire id one_shot e).state other
      ≡ ((id == other && one_shot) || is_completed_once e.state other)
unfolding retire clear_pending_resume mark_completed_once is_completed_once is_marked
retire-completed id other true e =
    ground (arith, lookup-insert id other true e.state.completed_once)
retire-completed id other false e = ground arith

settle-completed :
    (t : Task) (id other : Text) (now backoff : Time) (res : Outcome) (status : RunStatus)
    (paused : Bool) (e : Engine)
    → is_paused status ≡ paused
    → is_completed_once (settle t id now backoff res status e).state other ≡ (
        (t.id == other && (not paused && one_shot_trigger t.trigger))
        || is_completed_once e.state other)
unfolding settle set_pending_resume is_completed_once
settle-completed t id other now backoff res status true e h = rw h (ground arith)
settle-completed t id other now backoff res status false e h =
    rw h (retire-completed t.id other (one_shot_trigger t.trigger) e)

-- After a run that pauses for a rate limit, its session waits under the task on the provider that it
-- ran on, and the mark of a completed task stays as it was; after any other run no session waits,
-- and a task that was launched with the trigger asap or fixed counts as completed, while one with
-- another trigger keeps its mark as it was. Other tasks keep their sessions and marks.
pub finish-pending :
    (limit : ℕ) (now backoff : Time) (t : Task) (id other : Text) (rec : Run) (res : Outcome)
    (run_err : Option Text) (e : Engine)
    → (lookup other (finish limit now backoff t id rec res run_err e).state.pending_resumes ≡ (
        if t.id == other
        then (if ends_paused rec res run_err e
            then some (record { session_id = res.session_id; provider_id = id })
            else none)
        else lookup other e.state.pending_resumes))
      × (is_completed_once (finish limit now backoff t id rec res run_err e).state other ≡ (
          (t.id == other && (not (ends_paused rec res run_err e) && one_shot_trigger t.trigger))
          || is_completed_once e.state other))
unfolding finish finish_record
finish-pending limit now backoff t id other rec res run_err e =
    let freed = release t id rec.run_id e in
    let status =
      (final_status (is_marked rec.run_id e.canceled) (is_marked rec.run_id e.takeovers) res
        run_err).0 in
    (
      settle-pending t id other now backoff res status (is_paused status) freed refl
          ∙ ap
              (λ (s : State).
                if t.id == other
                then (if is_paused status
                    then some (record { session_id = res.session_id; provider_id = id })
                    else none)
                else lookup other s.pending_resumes)
              (release-state t id rec.run_id e),
      settle-completed t id other now backoff res status (is_paused status) freed refl
          ∙ ap
              (λ (s : State).
                (t.id == other && (not (is_paused status) && one_shot_trigger t.trigger))
                || is_completed_once s other)
              (release-state t id rec.run_id e),
    )
