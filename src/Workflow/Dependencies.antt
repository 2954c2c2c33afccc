-- ===== src/Workflow/Dependencies.antt =====
-- `Dependency`, `Resolve`, `Ready` and `RunsOf` of internal/workflow/workflow.go.
use claudeq.Prelude.{
  Bool, true, false, not, ◌&&◌, ◌||◌, Option, none, some, List, [], ◌∷◌, ◌++◌, Text, codes,
  if◌then◌else◌, is_empty, map, keep_if,
}
use claudeq.Prelude.Strings.{before}
use claudeq.Prelude.Assoc.{Assoc, lookup, insert}
use claudeq.Prelude.Sort.{sort}
use claudeq.Task.Model.{Task}
use claudeq.Store.Run.{
  Run, RunStatus, running, success, failed, rate_limited, auth_error, canceled, unknown_status,
  terminal,
}

-- `run` is the zero `Run` in the source where there is none.
pub record Dependency : Type 0 where
  pub job_id : Text
  pub name : Text
  pub done : Bool
  pub run : Option Run
  pub missing : Bool

abbrev pub is_rate_limited : RunStatus → Bool
is_rate_limited rate_limited = true
is_rate_limited _ = false

-- Indexed by id; a later task or run of the same id replaces an earlier one.
unfoldable pub index_tasks : List Task → Assoc Task → Assoc Task
unfolding insert
index_tasks [] m = m
index_tasks (t ∷ ts) m = index_tasks ts (insert t.id t m)

unfoldable pub index_runs : List Run → Assoc Run → Assoc Run
unfolding insert
index_runs [] m = m
index_runs (r ∷ rs) m = index_runs rs (insert r.task_id r m)

-- A dependent job stops waiting on a run that is over, or that is paused on a rate limit.
unfoldable pub settled : Run → Bool
unfolding terminal
settled r = terminal r.status || is_rate_limited r.status

abbrev pub or_else : Text → Text → Text
or_else name id = if is_empty name then id else name

unfoldable pub resolve_one : Text → Option Run → Option Task → Dependency
unfolding settled
resolve_one id (some run) queued = record {
  job_id = id;
  name = elim queued [
    | none ↦ or_else run.task_name id
    | some t ↦ if settled run then or_else run.task_name id else t.name
  ];
  done = settled run;
  run = some run;
  missing = false;
}
resolve_one id none (some t) = record {
  job_id = id;
  name = t.name;
  done = false;
  run = none;
  missing = false;
}
resolve_one id none none = record {
  job_id = id;
  name = id;
  done = true;
  run = none;
  missing = true;
}

unfoldable pub resolve : Task → List Task → List Run → List Dependency
unfolding resolve_one lookup index_runs index_tasks
resolve t tasks runs =
    map (λ id. resolve_one id (lookup id (index_runs runs [])) (lookup id (index_tasks tasks [])))
      t.depends_on

-- Whether all have finished, and the names of those that have not.
unfoldable pub ready : List Dependency → Bool × List Text
unfolding keep_if
ready deps =
    let waiting = map (λ d. d.name) (keep_if (λ d. not d.done) deps) in (is_empty waiting, waiting)

abbrev pub status_name : RunStatus → Text
status_name running = codes "running"
status_name success = codes "success"
status_name failed = codes "failed"
status_name rate_limited = codes "rate_limited_waiting"
status_name auth_error = codes "auth_error"
status_name canceled = codes "canceled"
status_name (unknown_status s) = s

-- `Status`. The zero run has an empty id and an empty status.
abbrev pub run_word : Bool → Option Run → Text
run_word done none = if done then codes "" else codes "not started yet"
run_word done (some r) =
    if is_rate_limited r.status
    then codes "waiting to resume after a rate limit"
    else if not done && is_empty r.run_id
    then codes "not started yet"
    else status_name r.status

unfoldable pub status : Dependency → Text
status d = if d.missing then codes "no result recorded" else run_word d.done d.run

-- `RunsOf`: the runs of each workflow, in the order of their start.
abbrev pub starts_before : Run → Run → Bool
starts_before a b = before a.started_at b.started_at

abbrev pub runs_under : Text → Option (List Run) → List Run
runs_under id none = []
runs_under id (some rs) = rs

unfoldable pub group_runs : List Run → Assoc (List Run) → Assoc (List Run)
unfolding lookup insert
group_runs [] out = out
group_runs (r ∷ rs) out = group_runs rs (
    if is_empty r.workflow_id
    then out
    else insert r.workflow_id (runs_under r.workflow_id (lookup r.workflow_id out) ++ r ∷ []) out)

unfoldable pub runs_of : List Run → Assoc (List Run)
unfolding group_runs sort
runs_of runs = map (λ e. (e.0, sort starts_before e.1)) (group_runs runs [])
