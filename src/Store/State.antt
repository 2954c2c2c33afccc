-- ===== src/Store/State.antt =====
-- `State` and `PendingResume` of internal/store/state.go. A map of booleans that only `true` is
-- written to is still a map: its lookup is false for a key that it lacks.
use claudeq.Prelude.{
  Bool, true, false, Option, none, some, List, [], ◌∷◌, Text, is_empty, if◌then◌else◌,
}
use claudeq.Prelude.Strings.{Time}
use claudeq.Prelude.Assoc.{Assoc, lookup, insert, delete}

pub record PendingResume : Type 0 where
  pub session_id : Text
  pub provider_id : Text

pub record State : Type 0 where
  pub read_runs : Assoc Bool
  pub read_artifacts : Assoc Bool
  pub notified_artifacts : Assoc Bool
  pub artifact_notify_primed : Bool
  pub last_started : Assoc Time
  pub last_run_at : Assoc Time
  pub completed_once : Assoc Bool
  pub pending_resumes : Assoc PendingResume
  pub dismissed_update_version : Text
  pub whats_new_seen : Text
  pub rename_check_done : Bool
  pub collapsed_groups : Assoc Bool
  pub notified_provider_health : Assoc Text

unfoldable pub new_state : State
new_state = record {
  read_runs = [];
  read_artifacts = [];
  notified_artifacts = [];
  artifact_notify_primed = false;
  last_started = [];
  last_run_at = [];
  completed_once = [];
  pending_resumes = [];
  dismissed_update_version = [];
  whats_new_seen = [];
  rename_check_done = false;
  collapsed_groups = [];
  notified_provider_health = [];
}

-- `m[k]` of a map of booleans, and of one of texts.
abbrev pub or_false : Option Bool → Bool
or_false none = false
or_false (some b) = b

abbrev pub or_empty : Option Text → Text
or_empty none = []
or_empty (some t) = t

unfoldable pub is_marked : Text → Assoc Bool → Bool
unfolding lookup
is_marked id m = or_false (lookup id m)

unfoldable pub mark_all : List Text → Assoc Bool → Assoc Bool
unfolding insert
mark_all [] m = m
mark_all (id ∷ ids) m = mark_all ids (insert id true m)

unfoldable pub notified_provider_state : State → Text → Text
unfolding lookup
notified_provider_state s id = or_empty (lookup id s.notified_provider_health)

unfoldable pub set_notified_provider_state : Text → Text → State → State
unfolding insert
set_notified_provider_state id state s = record s {
  notified_provider_health = insert id state s.notified_provider_health;
}

unfoldable pub group_collapsed : State → Text → Bool
unfolding is_marked
group_collapsed s group = is_marked group s.collapsed_groups

unfoldable pub set_group_collapsed : Text → Bool → State → State
unfolding insert delete
set_group_collapsed group collapsed s =
    if collapsed
    then record s { collapsed_groups = insert group true s.collapsed_groups }
    else record s { collapsed_groups = delete group s.collapsed_groups }

-- `for g := range m { if !keep[g] { delete(m, g) } }`
unfoldable pub keep_marked : (Text → Bool) → Assoc Bool → Assoc Bool
keep_marked keep [] = []
keep_marked keep (entry ∷ rest) =
    let others = keep_marked keep rest in if keep entry.0 then entry ∷ others else others

unfoldable pub keep_groups : Assoc Bool → State → State
unfolding keep_marked is_marked
keep_groups keep s = record s {
  collapsed_groups = keep_marked (λ g. is_marked g keep) s.collapsed_groups;
}

unfoldable pub forget_provider : Text → State → State
unfolding delete
forget_provider id s = record s { notified_provider_health = delete id s.notified_provider_health }

unfoldable pub is_read : State → Text → Bool
unfolding is_marked
is_read s id = is_marked id s.read_runs

unfoldable pub mark_read : Text → State → State
unfolding insert
mark_read id s = record s { read_runs = insert id true s.read_runs }

unfoldable pub mark_all_read : List Text → State → State
unfolding mark_all
mark_all_read ids s = record s { read_runs = mark_all ids s.read_runs }

unfoldable pub is_artifact_read : State → Text → Bool
unfolding is_marked
is_artifact_read s id = is_marked id s.read_artifacts

unfoldable pub mark_artifact_read : Text → State → State
unfolding insert
mark_artifact_read id s = record s { read_artifacts = insert id true s.read_artifacts }

unfoldable pub mark_all_artifacts_read : List Text → State → State
unfolding mark_all
mark_all_artifacts_read ids s = record s { read_artifacts = mark_all ids s.read_artifacts }

unfoldable pub forget_artifact : Text → State → State
unfolding delete
forget_artifact id s = record s {
  read_artifacts = delete id s.read_artifacts;
  notified_artifacts = delete id s.notified_artifacts;
}

unfoldable pub is_artifact_notified : State → Text → Bool
unfolding is_marked
is_artifact_notified s id = is_marked id s.notified_artifacts

unfoldable pub mark_artifact_notified : Text → State → State
unfolding insert
mark_artifact_notified id s = record s { notified_artifacts = insert id true s.notified_artifacts }

unfoldable pub prime_artifact_notify : List Text → State → State
unfolding mark_all
prime_artifact_notify ids s = record s {
  notified_artifacts = mark_all ids s.notified_artifacts;
  artifact_notify_primed = true;
}

unfoldable pub record_start : Text → Time → State → State
unfolding insert
record_start id t s = record s { last_started = insert id t s.last_started }

unfoldable pub record_run : Text → Time → State → State
unfolding insert
record_run id t s = record s { last_run_at = insert id t s.last_run_at }

unfoldable pub last_run : State → Text → Option Time
unfolding lookup
last_run s id = lookup id s.last_run_at

unfoldable pub last_start : State → Text → Option Time
unfolding lookup
last_start s id = lookup id s.last_started

unfoldable pub mark_completed_once : Text → State → State
unfolding insert
mark_completed_once id s = record s { completed_once = insert id true s.completed_once }

unfoldable pub is_completed_once : State → Text → Bool
unfolding is_marked
is_completed_once s id = is_marked id s.completed_once

-- An entry without a session is none to continue.
abbrev pub with_session : Option PendingResume → Option PendingResume
with_session none = none
with_session (some p) = if is_empty p.session_id then none else some p

unfoldable pub pending_resume : State → Text → Option PendingResume
unfolding lookup
pending_resume s id = with_session (lookup id s.pending_resumes)

unfoldable pub set_pending_resume : Text → Text → Text → State → State
unfolding insert
set_pending_resume id session_id provider_id s = record s {
  pending_resumes =
      insert id (record { session_id = session_id; provider_id = provider_id }) s.pending_resumes;
}

unfoldable pub clear_pending_resume : Text → State → State
unfolding delete
clear_pending_resume id s = record s { pending_resumes = delete id s.pending_resumes }

unfoldable pub forget_task : Text → State → State
unfolding delete
forget_task id s = record s {
  last_started = delete id s.last_started;
  last_run_at = delete id s.last_run_at;
  completed_once = delete id s.completed_once;
  pending_resumes = delete id s.pending_resumes;
}

unfoldable pub dismiss_update : Text → State → State
dismiss_update version s = record s { dismissed_update_version = version }
