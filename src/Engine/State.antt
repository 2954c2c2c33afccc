-- ===== src/Engine/State.antt =====
-- What the engine keeps in memory and in the store, and the questions that a tick asks of it.
use claudeq.Prelude.{
  ℕ, Bool, true, false, not, ◌&&◌, ◌||◌, Option, none, some, List, [], ◌∷◌, Text, ◌==◌,
  if◌then◌else◌, ltb, is_some, is_empty,
}
use claudeq.Prelude.Strings.{Time}
use claudeq.Prelude.Assoc.{Assoc, lookup, insert}
use claudeq.Prelude.Result.{Result}
use claudeq.Task.Model.{Task, is_script}
use claudeq.Task.Checks.{is_cron}
use claudeq.Store.Run.{Run}
use claudeq.Store.State.{
  State, PendingResume, last_start, is_completed_once, pending_resume, record_start, is_marked,
}
use claudeq.Schedule.Due.{DueProblem, due}
use claudeq.Schedule.Select.{Running}
use claudeq.Workflow.Dependencies.{Dependency, resolve, ready}
use claudeq.Limit.Gates.{Gates}

-- The fields of `Engine` that scheduling reads, with the state, the history and the queue of its
-- store. The counters go down only for runs that they counted.
pub record Engine : Type 0 where
  pub active : Assoc Bool
  pub canceled : Assoc Bool
  pub takeovers : Assoc Bool
  pub non_parallel_active : ℕ
  pub parallel_active : ℕ
  pub running_on : Assoc ℕ
  pub gates : Gates
  pub state : State
  pub events : List Run
  pub queue : List Task

unfoldable pub running_state : Engine → Running
running_state e = record {
  non_parallel = ltb 0 e.non_parallel_active;
  parallel = ltb 0 e.parallel_active;
}

abbrev pub or_zero : Option Time → Time
or_zero none = 0
or_zero (some t) = t

-- `dependencyState`: the dependencies of each task that has some.
unfoldable pub dependency_state : List Task → List Task → List Run → Assoc (List Dependency)
unfolding resolve insert
dependency_state [] tasks runs = []
dependency_state (t ∷ ts) tasks runs =
    let rest = dependency_state ts tasks runs in
    if is_empty t.depends_on then rest else insert t.id (resolve t tasks runs) rest

abbrev pub or_nothing : Option (List Dependency) → List Dependency
or_nothing none = []
or_nothing (some deps) = deps

unfoldable pub met : Assoc (List Dependency) → Text → Bool
unfolding ready lookup
met deps id = (ready (or_nothing (lookup id deps))).0

module _ (parse_cron : Text → Option (Time → Time)) where
  unfoldable pub is_due :
      Engine → Task → State → Assoc (List Dependency) → Time → Result DueProblem Bool
  unfolding due last_start is_completed_once met is_marked
  is_due e t s deps now = due parse_cron t (record {
    now = now;
    running = is_marked t.id e.active;
    completed_once = is_completed_once s t.id;
    cron_anchor = or_zero (last_start s t.id);
    dependencies_met = met deps t.id;
  })

-- A new cron task is anchored at the tick that first sees it.
unfoldable pub seed_cron_anchors : List Task → State → Time → State × Bool
unfolding last_start record_start
seed_cron_anchors [] s now = (s, false)
seed_cron_anchors (t ∷ ts) s now =
    if is_cron t.trigger && not (is_some (last_start s t.id))
    then ((seed_cron_anchors ts (record_start t.id now s) now).0, true)
    else seed_cron_anchors ts s now

-- The session to use, whether it is resumed, and the provider whose session is dropped.
abbrev pub session_of : Option PendingResume → Text → Text → Text × (Bool × Option Text)
session_of none provider_id fresh = (fresh, (false, none))
session_of (some p) provider_id fresh =
    if is_empty p.provider_id || p.provider_id == provider_id
    then (p.session_id, (true, none))
    else (fresh, (false, some p.provider_id))

-- `sessionFor`, where `fresh` is a new session id.
unfoldable pub session_for : Task → State → Text → Text → Text × (Bool × Option Text)
unfolding is_script pending_resume
session_for t s provider_id fresh =
    if is_script t
    then ([], (false, none))
    else session_of (pending_resume s t.id) provider_id fresh
