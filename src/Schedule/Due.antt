-- ===== src/Schedule/Due.antt =====
-- `Inputs` and `Due` of internal/schedule/schedule.go.
use claudeq.Prelude.{
  Bool, false, not, ◌&&◌, ◌||◌, Option, none, some, Text, if◌then◌else◌, is_empty,
}
use claudeq.Prelude.Strings.{Time, before, after}
use claudeq.Prelude.Result.{Result, ok, err}
use claudeq.Task.Model.{Task, Trigger, asap, fixed, cron, unknown_trigger}
use claudeq.Task.Checks.{cron_schedule}

pub record Inputs : Type 0 where
  pub now : Time
  pub running : Bool
  pub completed_once : Bool
  pub cron_anchor : Time
  pub dependencies_met : Bool

pub data DueProblem : Type 0 where
  schedule_unparseable : Text → DueProblem
  trigger_unknown : Text → Text → DueProblem

-- The next occurrence after the anchor, if the schedule parses.
abbrev pub cron_due : Text → Option (Time → Time) → Inputs → Result DueProblem Bool
cron_due id none i = err (schedule_unparseable id)
cron_due id (some next) i = ok (not (after (next i.cron_anchor) i.now))

module _ (parse_cron : Text → Option (Time → Time)) where
  abbrev pub by_trigger : Trigger → Task → Inputs → Result DueProblem Bool
  by_trigger asap t i = ok (not i.completed_once)
  by_trigger fixed t i = ok (not i.completed_once && not (before i.now t.fixed_at))
  by_trigger cron t i = cron_due t.id (cron_schedule parse_cron t) i
  by_trigger (unknown_trigger tr) t i = err (trigger_unknown t.id tr)

  unfoldable pub due : Task → Inputs → Result DueProblem Bool
  unfolding cron_schedule
  due t i =
      if not t.enabled || i.running
      then ok false
      else if not (is_empty t.depends_on) && not i.dependencies_met
      then ok false
      else by_trigger t.trigger t i
