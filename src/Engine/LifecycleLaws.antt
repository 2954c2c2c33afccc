-- ===== src/Engine/LifecycleLaws.antt =====
-- What the steps of a run leave of the marks of running and of completed tasks.
use claudeq.Prelude.{
  ◌≡◌, ◌⊎◌, inl, inr, refl, ap, ◌∙◌, Bool, true, false, not, ◌&&◌, ◌||◌, none, some, List, [], ◌∷◌,
  ◌++◌, Text, ◌==◌, All, map, if◌then◌else◌, arith, Bool-cases, text_eq_iff, text_eq_refl,
}
use claudeq.Prelude.Strings.{Time}
use claudeq.Prelude.Assoc.{Assoc, lookup, insert, delete, lookup-insert, lookup-delete}
use claudeq.Prelude.Filter.{Distinct}
use claudeq.Task.Model.{Task}
use claudeq.Store.Run.{RunStatus}
use claudeq.Store.State.{
  State, is_completed_once, is_marked, mark_completed_once, clear_pending_resume,
  set_pending_resume, forget_task, or_false,
}
use claudeq.Engine.State.{Engine}
use claudeq.Engine.Finish.{Outcome, one_shot_trigger, is_paused, release, give_slot}
use claudeq.Engine.Steps.{retire_state, settle_state}
use claudeq.Engine.Lifecycle.{Happening, started, started_by_hand, completed, forgotten, Live}

-- Whether a run that was launched with a one-shot trigger has ended for good since the state of its
-- task was last forgotten.
abbrev pub completed_since : Text → List Happening → Bool
completed_since id [] = false
completed_since id (completed done ∷ tr) = done == id || completed_since id tr
completed_since id (forgotten gone ∷ tr) = not (gone == id) && completed_since id tr
completed_since id (started t ∷ tr) = completed_since id tr
completed_since id (started_by_hand t ∷ tr) = completed_since id tr

-- No tick started a task with a one-shot trigger again after such a run of it had ended.
abbrev pub NoRestart : List Happening → Type 0
NoRestart [] = Unit
NoRestart (started t ∷ tr) =
    ((one_shot_trigger t.trigger && completed_since t.id tr) ≡ false) × NoRestart tr
NoRestart (_ ∷ tr) = NoRestart tr

-- Every mark of a completed task is kept.
abbrev pub KeepsMarks : State → State → Type 0
KeepsMarks s s' = (id : Text) → is_completed_once s id ≡ true → is_completed_once s' id ≡ true

pub same-KeepsMarks : (s s' : State) → s'.completed_once ≡ s.completed_once → KeepsMarks s s'
unfolding is_completed_once
same-KeepsMarks s s' h id m = ap (is_marked id) h ∙ m

marked-insert :
    (id other : Text) (m : Assoc Bool)
    → (id == other) ≡ true ⊎ (is_marked other m ≡ true)
    → is_marked other (insert id true m) ≡ true
unfolding is_marked
marked-insert id other m h = rw (lookup-insert id other true m) (by_test (id == other) h)
  where
    by_test :
        (b : Bool)
        → (b ≡ true) ⊎ (or_false (lookup other m) ≡ true)
        → or_false (if b then some true else lookup other m) ≡ true
    by_test true k = refl
    by_test false (inl k) = cc
    by_test false (inr k) = k

pub marked-delete :
    (id other : Text) (m : Assoc Bool)
    → (id == other) ≡ false
    → is_marked other m ≡ true
    → is_marked other (delete id m) ≡ true
unfolding is_marked
marked-delete id other m h k = rw (lookup-delete id other m, h) k

pub retire_state-KeepsMarks :
    (id : Text) (one_shot : Bool) (e : Engine)
    → KeepsMarks e.state (retire_state id one_shot e).state
unfolding retire_state mark_completed_once clear_pending_resume is_completed_once
retire_state-KeepsMarks id true e other h = marked-insert id other e.state.completed_once (inr h)
retire_state-KeepsMarks id false e other h = h

pub settle_state-KeepsMarks :
    (t : Task) (id : Text) (now backoff : Time) (res : Outcome) (status : RunStatus) (e : Engine)
    → KeepsMarks e.state (settle_state t id now backoff res status e).state
unfolding settle_state set_pending_resume is_completed_once
settle_state-KeepsMarks t id now backoff res status e other h =
    elim (Bool-cases (is_paused status)) [
      | inl paused ↦ rw paused h
      | inr done ↦ rw done (retire_state-KeepsMarks t.id (one_shot_trigger t.trigger) e other h)
    ]

-- The end of a run of a one-shot task is recorded before the task is given back.
pub settle_state-completes :
    (t : Task) (id : Text) (now backoff : Time) (res : Outcome) (status : RunStatus) (e : Engine)
    → (not (is_paused status) && one_shot_trigger t.trigger) ≡ true
    → is_completed_once (settle_state t id now backoff res status e).state t.id ≡ true
unfolding settle_state retire_state mark_completed_once clear_pending_resume is_completed_once
settle_state-completes t id now backoff res status e h =
    let (over, once) = both (is_paused status) (one_shot_trigger t.trigger) h in
    rw (over, once) (marked-insert t.id t.id e.state.completed_once (inl (text_eq_refl t.id)))
  where
    both : (a b : Bool) → (not a && b) ≡ true → (a ≡ false) × (b ≡ true)
    both a b k = ground arith

pub forget_task-completed :
    (id other : Text) (s : State)
    → is_completed_once (forget_task id s) other ≡ (not (id == other) && is_completed_once s other)
unfolding forget_task is_completed_once is_marked
forget_task-completed id other s =
    ap or_false (lookup-delete id other s.completed_once) ∙ by_test (id == other)
  where
    by_test :
        (b : Bool)
        → or_false (if b then none else lookup other s.completed_once)
          ≡ (not b && or_false (lookup other s.completed_once))
    by_test true = refl
    by_test false = refl

pub settle_state-active :
    (t : Task) (id : Text) (now backoff : Time) (res : Outcome) (status : RunStatus) (e : Engine)
    → (settle_state t id now backoff res status e).active ≡ e.active
unfolding settle_state retire_state
settle_state-active t id now backoff res status e = ground arith

pub retire_state-active :
    (id : Text) (one_shot : Bool) (e : Engine) → (retire_state id one_shot e).active ≡ e.active
unfolding retire_state
retire_state-active id one_shot e = ground arith

pub release-active :
    (t : Task) (id run_id : Text) (e : Engine) → (release t id run_id e).active ≡ e.active
unfolding release give_slot
release-active t id run_id e = ground arith

-- The ids of the runs.
abbrev pub live_ids : List Live → List Text
live_ids ls = map (λ (l : Live). l.task.id) ls

abbrev pub IsActive : Assoc Bool → List Text → Type 0
IsActive m ids = All (λ id. is_marked id m ≡ true) ids

abbrev pub Unlike : List Text → Type 0
Unlike ids = Distinct (λ (id : Text). id) ids

-- A run that leaves takes its own mark and no other.
pub leave_ids :
    (front : List Live) (l : Live) (behind : List Live) (m : Assoc Bool)
    → Unlike (live_ids (front ++ l ∷ behind))
    → IsActive m (live_ids (front ++ l ∷ behind))
    → Unlike (live_ids (front ++ behind))
      × IsActive (delete l.task.id m) (live_ids (front ++ behind))
leave_ids [] l behind m u a = (u.1, others behind u.0 a.1)
  where
    others :
        (ls : List Live)
        → All (λ id. (id == l.task.id) ≡ false) (live_ids ls)
        → IsActive m (live_ids ls)
        → IsActive (delete l.task.id m) (live_ids ls)
    others [] p q = tt
    others (k ∷ ks) p q = (
      marked-delete l.task.id k.task.id m
          (ground (arith, p.0, text_eq_iff k.task.id l.task.id, text_eq_iff l.task.id k.task.id))
          q.0,
      others ks p.1 q.1,
    )
leave_ids (k ∷ front) l behind m u a =
    let (rest, marks) = leave_ids front l behind m u.1 a.1 in
    let (apart, from_l) = without_mid front u.0 in
    ((apart, rest), (marked-delete l.task.id k.task.id m from_l a.0, marks))
  where
    without_mid :
        (ls : List Live)
        → All (λ id. (id == k.task.id) ≡ false) (live_ids (ls ++ l ∷ behind))
        → All (λ id. (id == k.task.id) ≡ false) (live_ids (ls ++ behind))
          × ((l.task.id == k.task.id) ≡ false)
    without_mid [] p = (p.1, p.0)
    without_mid (j ∷ js) p = let (h, q) = without_mid js p.1 in ((p.0, h), q)

pub live_ids-phase :
    (front : List Live) (l l' : Live) (behind : List Live)
    → l'.task ≡ l.task
    → live_ids (front ++ l' ∷ behind) ≡ live_ids (front ++ l ∷ behind)
live_ids-phase [] l l' behind h = ap (λ (t : Task). t.id ∷ live_ids behind) h
live_ids-phase (k ∷ front) l l' behind h =
    ap (λ (ids : List Text). k.task.id ∷ ids) (live_ids-phase front l l' behind h)
