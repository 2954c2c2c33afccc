-- ===== src/Store/Run.antt =====
-- `RunStatus`, `RunProvider` and `Run` of internal/store/run.go. Costs are not modelled.
use claudeq.Prelude.{ℕ, ◌*◌, Bool, true, false, Option, Text, codes, ◌==◌, if◌then◌else◌, is_empty}
use claudeq.Prelude.Strings.{Time}
use claudeq.Prelude.Int.{ℤ}
use claudeq.Task.Model.{Task}

-- A status that the code does not know stays as it was read.
pub data RunStatus : Type 0 where
  running success failed rate_limited auth_error canceled : RunStatus
  unknown_status : Text → RunStatus

unfoldable pub terminal : RunStatus → Bool
terminal success = true
terminal failed = true
terminal auth_error = true
terminal canceled = true
terminal _ = false

pub record RunProvider : Type 0 where
  pub id : Text
  pub kind : Text
  pub name : Text
  pub model : Text
  pub reported_model : Text
  pub reasoning_effort : Text
  pub access_mode : Text
  pub pool : Text

abbrev pub script_run_kind : Text
script_run_kind = codes "script"

unfoldable pub model_name : RunProvider → Text
model_name p = if is_empty p.reported_model then p.model else p.reported_model

unfoldable pub is_script_run : RunProvider → Bool
is_script_run p = p.kind == script_run_kind

abbrev pub max_final_output : ℕ
max_final_output = 16 * 1024

pub record Run : Type 0 where
  pub run_id : Text
  pub task_id : Text
  pub task_name : Text
  pub started_at : Time
  pub finished_at : Option Time
  pub status : RunStatus
  pub session_id : Text
  pub exit_code : ℤ
  pub log_path : Text
  pub error : Text
  pub task : Option Task
  pub provider : RunProvider
  pub final_output : Text
  pub final_output_truncated : Bool
  pub workflow_id : Text
  pub parent_run_id : Text
  pub resume_at : Option Time
