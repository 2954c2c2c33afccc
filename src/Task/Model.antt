-- ===== src/Task/Model.antt =====
-- The task model (internal/task/task.go): its enumerations, its record and the small questions
-- that are asked of it. A string type with a few known values has a constructor for the others.
use claudeq.Prelude.{Bool, true, false, List, Text, if◌then◌else◌, is_empty}
use claudeq.Prelude.Strings.{Time}

pub data Trigger : Type 0 where
  asap fixed cron : Trigger
  unknown_trigger : Text → Trigger

-- `unset` is the empty string, which means an agent job.
pub data Kind : Type 0 where
  unset agent script : Kind
  unknown_kind : Text → Kind

pub data Permissions : Type 0 where
  ask skip : Permissions
  unknown_permissions : Text → Permissions

pub record Task : Type 0 where
  pub id : Text
  pub name : Text
  pub kind : Kind
  pub prompt : Text
  pub working_dir : Text
  pub group : Text
  pub trigger : Trigger
  pub fixed_at : Time
  pub cron_expr : Text
  pub parallel : Bool
  pub enabled : Bool
  pub provider : Text
  pub pool : Text
  pub backfill : Bool
  pub model : Text
  pub reasoning_effort : Text
  pub permissions : Permissions
  pub notify_on_result : Bool
  pub depends_on : List Text
  pub include_results : Bool
  pub parent_run : Text
  pub workflow_id : Text
  pub origin_id : Text
  pub origin_name : Text
  pub quiet_history : Bool

unfoldable pub permissions_for : Bool → Permissions
permissions_for b = if b then skip else ask

abbrev pub kind_is_script : Kind → Bool
kind_is_script script = true
kind_is_script _ = false

unfoldable pub is_script : Task → Bool
is_script t = kind_is_script t.kind

-- The id and the name of the job at the root of the chain.
unfoldable pub origin : Task → Text × Text
origin t = if is_empty t.origin_id then (t.id, t.name) else (t.origin_id, t.origin_name)
