-- ===== src/Store/StateLaws.antt =====
-- What the scheduling state remembers about a task after the task is forgotten.
use claudeq.Prelude.{
  ◌≡◌, refl, ap, Bool, true, false, Option, none, List, [], ◌∷◌, ◌||◌, Text, ◌==◌, if◌then◌else◌,
  arith, any, text_eq_iff, Bool-cases, inl, inr,
}
use claudeq.Prelude.Assoc.{Assoc, insert, lookup, lookup-insert, lookup-delete}
use claudeq.Prelude.Strings.{Time}
use claudeq.Store.State.{
  State, PendingResume, forget_task, last_start, last_run, is_completed_once, pending_resume,
  mark_all_read, mark_all, is_read, is_marked, keep_marked, keep_groups, group_collapsed,
}

-- What a scheduler reads about a task.
abbrev History : Type 0
History = Option Time × (Option Time × (Bool × Option PendingResume))

abbrev pub history_of : State → Text → History
history_of s id = (last_start s id, (last_run s id, (is_completed_once s id, pending_resume s id)))

-- Forgetting a task leaves nothing under its id, and leaves every other id as it was.
pub history_of-forget_task :
    (id other : Text) (s : State)
    → history_of (forget_task id s) other
      ≡ (if id == other then (none, (none, (false, none))) else history_of s other)
unfolding forget_task last_start last_run is_completed_once pending_resume is_marked
history_of-forget_task id other s = elim (Bool-cases (id == other)) [
  | inl e ↦ simp (
    e,
    lookup-delete id other s.last_started,
    lookup-delete id other s.last_run_at,
    lookup-delete id other s.completed_once,
    lookup-delete id other s.pending_resumes,
  )
  | inr e ↦ simp (
    e,
    lookup-delete id other s.last_started,
    lookup-delete id other s.last_run_at,
    lookup-delete id other s.completed_once,
    lookup-delete id other s.pending_resumes,
  )
]

is_marked-mark_all :
    (ids : List Text) (id : Text) (m : Assoc Bool)
    → is_marked id (mark_all ids m) ≡ (any (λ other. other == id) ids || is_marked id m)
unfolding is_marked mark_all any
is_marked-mark_all [] id m = refl
is_marked-mark_all (i ∷ ids) id m =
    ground (arith, is_marked-mark_all ids id (insert i true m), lookup-insert i id true m)

-- After every given run is marked read, a run is read when it is among them or was read before.
pub is_read-mark_all_read :
    (ids : List Text) (id : Text) (s : State)
    → is_read (mark_all_read ids s) id ≡ (any (λ other. other == id) ids || is_read s id)
unfolding is_read mark_all_read
is_read-mark_all_read ids id s = is_marked-mark_all ids id s.read_runs

keep_same : (keep : Text → Bool) (j g : Text) → (j == g) ≡ true → keep j ≡ keep g
keep_same keep j g e = ap keep ((text_eq_iff j g).0 e)

lookup-keep_marked :
    (keep : Text → Bool) (g : Text) (m : Assoc Bool)
    → lookup g (keep_marked keep m) ≡ (if keep g then lookup g m else none)
unfolding keep_marked lookup
lookup-keep_marked keep g [] = ground arith
lookup-keep_marked keep g (entry ∷ m) =
    ground (arith, keep_same keep entry.0 g, lookup-keep_marked keep g m)

-- Pruning the groups keeps the fold state of the groups to keep, and of no other.
group_collapsed-keep_groups :
    (keep : Assoc Bool) (s : State) (g : Text)
    → group_collapsed (keep_groups keep s) g
      ≡ (if is_marked g keep then group_collapsed s g else false)
unfolding group_collapsed keep_groups is_marked
group_collapsed-keep_groups keep s g =
    ground (arith, lookup-keep_marked (λ h. is_marked h keep) g s.collapsed_groups)
