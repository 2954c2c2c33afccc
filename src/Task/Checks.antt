-- ===== src/Task/Checks.antt =====
-- The checks of internal/task/task.go and cron.go: `CheckID`, `CheckGroup`, `CheckCron`,
-- `checkKind`, `Validate` and `DependenciesEqual`. `none` is Go's nil error.
use claudeq.Prelude.{
  ℕ, Bool, true, false, not, ◌&&◌, ◌||◌, Option, none, some, List, [], ◌∷◌, ◌+◌, Text, codes, ◌==◌,
  ltb, eqb, if◌then◌else◌, is_empty, is_some, length, any,
}
use claudeq.Prelude.Ladder.{refuse, attempt}
use claudeq.Prelude.Strings.{
  Time, set, is_zero, is_control, trim_space, has_prefix, fields, join_space,
}
use claudeq.Task.Model.{
  Task, Trigger, asap, fixed, cron, unknown_trigger, Kind, unset, agent, script, unknown_kind,
  Permissions, ask, skip, unknown_permissions, is_script,
}
use claudeq.Task.Slug.{is_lower, is_upper, is_digit}

pub data IdProblem : Type 0 where
  missing bad_character : IdProblem

pub data GroupProblem : Type 0 where
  surrounding_space too_long control_character : GroupProblem

-- `bad_field i` names the field that is not valid on its own.
pub data CronProblem : Type 0 where
  missing_schedule shorthand : CronProblem
  field_count : ℕ → CronProblem
  bad_field : ℕ → CronProblem
  bad_schedule : CronProblem

pub data ModelSetting : Type 0 where
  provider_setting pool_setting model_setting effort_setting : ModelSetting

pub data Problem : Type 0 where
  missing_id missing_prompt missing_script missing_working_dir : Problem
  bad_kind : Text → Problem
  script_sets : ModelSetting → Problem
  script_skips script_backfills provider_and_pool needs_fixed_at : Problem
  bad_cron : CronProblem → Problem
  bad_trigger : Text → Problem
  bad_group : GroupProblem → Problem
  bad_permissions : Text → Problem
  recurring_depends depends_on_itself : Problem
  bad_dependency : Text → IdProblem → Problem

abbrev pub is_id_head : ℕ → Bool
is_id_head r = is_lower r || is_upper r || is_digit r

abbrev pub is_id_rune : ℕ → Bool
is_id_rune r = is_id_head r || eqb r b'.' || eqb r b'-' || eqb r b'_'

-- The runes of an id from position i on: i > 0 allows the punctuation.
unfoldable pub check_runes : Bool → Text → Option IdProblem
check_runes later [] = none
check_runes later (r ∷ rs) =
    let rest = check_runes true rs in
    refuse (not (if later then is_id_rune r else is_id_head r)) bad_character rest

unfoldable pub check_id : Text → Option IdProblem
unfolding check_runes
check_id id = refuse (is_empty id) missing (check_runes false id)

abbrev pub max_group_len : ℕ
max_group_len = 60

-- The checks of a name that is not empty.
unfoldable pub check_name : Text → Option GroupProblem
unfolding is_control any trim_space
check_name name = refuse (not (name == trim_space name)) surrounding_space (
    refuse (ltb max_group_len (length name)) too_long
      (refuse (any is_control name) control_character none))

unfoldable pub check_group : Text → Option GroupProblem
check_group name = if is_empty name then none else check_name name

-- `DependenciesEqual`.
unfoldable pub dependencies_equal : List Text → List Text → Bool
dependencies_equal [] [] = true
dependencies_equal [] (y ∷ ys) = false
dependencies_equal (x ∷ xs) [] = false
dependencies_equal (x ∷ xs) (y ∷ ys) = x == y && dependencies_equal xs ys

-- The settings that steer a model, in the order that they are looked at.
unfoldable pub first_setting : Task → Option ModelSetting
first_setting t = refuse (not (is_empty t.provider)) provider_setting (
    refuse (not (is_empty t.pool)) pool_setting (
      refuse (not (is_empty t.model)) model_setting
        (refuse (not (is_empty t.reasoning_effort)) effort_setting none)))

abbrev pub is_skip : Permissions → Bool
is_skip skip = true
is_skip _ = false

unfoldable pub check_script : Task → Option Problem
unfolding first_setting
check_script t =
    attempt (first_setting t) script_sets
      (refuse (is_skip t.permissions) script_skips (refuse t.backfill script_backfills none))

abbrev pub by_kind : Kind → Option Problem → Option Problem
by_kind unset of_script = none
by_kind agent of_script = none
by_kind script of_script = of_script
by_kind (unknown_kind k) of_script = some (bad_kind k)

unfoldable pub check_kind : Task → Option Problem
unfolding check_script
check_kind t = by_kind t.kind (check_script t)

abbrev pub check_permissions : Permissions → Option Problem
check_permissions ask = none
check_permissions skip = none
check_permissions (unknown_permissions p) = some (bad_permissions p)

abbrev pub is_cron : Trigger → Bool
is_cron cron = true
is_cron _ = false

unfoldable pub check_dependencies : Text → List Text → Option Problem
check_dependencies id [] = none
check_dependencies id (dep ∷ deps) =
    let rest = check_dependencies id deps in
    refuse (dep == id) depends_on_itself (attempt (check_id dep) (bad_dependency dep) rest)

abbrev pub prompt_problem : Task → Problem
prompt_problem t = if is_script t then missing_script else missing_prompt

-- The cron parser is a library: `parse_cron` gives the function `Next` of the schedule.
module _ (parse_cron : Text → Option (Time → Time)) where
  -- `CronSchedule` parses the expression as it is stored.
  unfoldable pub cron_schedule : Task → Option (Time → Time)
  cron_schedule t = parse_cron t.cron_expr

  -- The first field that is not valid with wildcards for the other four.
  unfoldable pub culprit : ℕ → List Text → CronProblem
  unfolding join_space
  culprit i [] = bad_schedule
  culprit i (f ∷ fs) =
      let rest = culprit (i + 1) fs in
      if is_some (
        parse_cron
          (join_space (set (codes "*" ∷ codes "*" ∷ codes "*" ∷ codes "*" ∷ codes "*" ∷ []) i f)))
      then rest
      else bad_field i

  abbrev pub without_zone : List Text → List Text
  without_zone [] = []
  without_zone (f ∷ fs) =
      if has_prefix f (codes "TZ=") || has_prefix f (codes "CRON_TZ=") then fs else f ∷ fs

  unfoldable pub check_cron : Text → Option CronProblem
  unfolding trim_space has_prefix fields culprit
  check_cron expr =
      let spec = trim_space expr in
      let parts = without_zone (fields spec) in
      refuse (is_empty spec) missing_schedule (
        refuse (has_prefix spec (codes "@")) shorthand (
          refuse (not (eqb (length parts) 5)) (field_count (length parts))
            (refuse (not (is_some (parse_cron spec))) (culprit 0 parts) none)))

  abbrev pub check_trigger : Trigger → Time → Text → Option Problem
  check_trigger asap at expr = none
  check_trigger fixed at expr = refuse (is_zero at) needs_fixed_at none
  check_trigger cron at expr = attempt (check_cron expr) bad_cron none
  check_trigger (unknown_trigger tr) at expr = some (bad_trigger tr)

  unfoldable pub validate : Task → Option Problem
  unfolding is_script check_kind check_dependencies
  validate t = refuse (is_empty t.id) missing_id (
      refuse (is_empty t.prompt) (prompt_problem t) (
        refuse (is_empty t.working_dir) missing_working_dir (
          attempt (check_kind t) (λ p. p)
            (refuse (not (is_empty t.provider) && not (is_empty t.pool)) provider_and_pool (
              attempt (check_trigger t.trigger t.fixed_at t.cron_expr) (λ p. p)
                (attempt (check_group t.group) bad_group (
                  attempt (check_permissions t.permissions) (λ p. p)
                    (refuse (not (is_empty t.depends_on) && is_cron t.trigger) recurring_depends
                      (check_dependencies t.id t.depends_on)))))))))
