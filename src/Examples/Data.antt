-- ===== src/Examples/Data.antt =====
-- A few tasks, runs and instances to try the operations on.
use claudeq.Prelude.{
  true, false, Option, none, some, List, [], ◌∷◌, Text, codes, ◌==◌, if◌then◌else◌, ◌+◌,
}
use claudeq.Prelude.Strings.{Time}
use claudeq.Prelude.Int.{pos}
use claudeq.Task.Model.{Task, asap, cron, agent, ask}
use claudeq.Store.Run.{Run, RunProvider, RunStatus, success, rate_limited}

-- A parser that knows one schedule, which comes round every ten units of time.
abbrev pub parse : Text → Option (Time → Time)
parse s = if s == codes "* * * * *" then some (λ t. t + 10) else none

abbrev pub plain : Task
plain = record {
  id = codes "fix";
  name = codes "Fix it";
  kind = agent;
  prompt = codes "fix it";
  working_dir = codes "/w";
  group = [];
  trigger = asap;
  fixed_at = 0;
  cron_expr = [];
  parallel = false;
  enabled = true;
  provider = [];
  pool = [];
  backfill = false;
  model = [];
  reasoning_effort = [];
  permissions = ask;
  notify_on_result = false;
  depends_on = [];
  include_results = false;
  parent_run = [];
  workflow_id = [];
  origin_id = [];
  origin_name = [];
  quiet_history = false;
}

abbrev pub watcher : Task
watcher = record plain {
  id = codes "watch";
  name = codes "Watch";
  trigger = cron;
  cron_expr = codes "* * * * *";
  parallel = true;
}

abbrev pub second : Task
second = record plain { id = codes "second"; name = codes "Second"; parallel = true }

abbrev pub join : Task
join = record plain { id = codes "join"; name = codes "Join"; depends_on = codes "fix" ∷ [] }

abbrev pub nowhere : RunProvider
nowhere = record {
  id = [];
  kind = [];
  name = [];
  model = [];
  reported_model = [];
  reasoning_effort = [];
  access_mode = [];
  pool = [];
}

abbrev pub run_at : Text → Time → RunStatus → Text → Run
run_at id at status workflow = record {
  run_id = id;
  task_id = codes "fix";
  task_name = codes "Fix it";
  started_at = at;
  finished_at = none;
  status = status;
  session_id = [];
  exit_code = pos 0;
  log_path = [];
  error = [];
  task = none;
  provider = nowhere;
  final_output = [];
  final_output_truncated = false;
  workflow_id = workflow;
  parent_run_id = [];
  resume_at = none;
}

abbrev pub history : List Run
history =
    run_at (codes "r2") 5 rate_limited (codes "w") ∷ run_at (codes "r1") 3 success (codes "w") ∷ []
