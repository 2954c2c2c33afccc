-- ===== src/Store/Config.antt =====
-- The configuration of internal/store/store.go: its migration and the defaults of its settings. Of the
-- settings it has those that these operations read or write, without the push channels, the prompt
-- review, the backfill threshold and what only the app window shows.
use claudeq.Prelude.{
  ℕ, zero, suc, Bool, true, false, not, ◌||◌, Option, none, List, [], ◌∷◌, Text, codes, map,
  is_empty, is_some, if◌then◌else◌, ◌*◌,
}
use claudeq.Prelude.Strings.{Time}
use claudeq.Prelude.Int.{ℤ, pos, negsuc}
use claudeq.Task.Model.{Task, Permissions, ask, skip}

pub record Provider : Type 0 where
  pub id : Text
  pub kind : Text
  pub name : Text
  pub binary_path : Text
  pub config_dir : Text
  pub default_model : Text
  pub fallback_provider : Text
  pub fallback_model : Text
  pub enabled : Bool

pub record Settings : Type 0 where
  pub default_provider : Text
  pub legacy_default_model : Text
  pub legacy_skip_permissions : Bool
  pub heartbeat_minutes : ℤ
  pub legacy_claude_path : Text
  pub idle_timeout_minutes : ℤ
  pub max_run_history : ℤ
  pub paused : Bool
  pub assistant_provider : Text
  pub assistant_model : Text
  pub legacy_feedback_provider : Text
  pub legacy_feedback_model : Text
  pub legacy_beta_features : Option Bool
  pub legacy_show_codex_beta : Option Bool

pub record Config : Type 0 where
  pub settings : Settings
  pub providers : List Provider
  pub tasks : List Task

unfoldable pub seed_providers : Settings → List Provider
seed_providers s =
    record {
      id = codes "claude";
      kind = codes "claude-code";
      name = codes "Claude Code";
      binary_path = s.legacy_claude_path;
      config_dir = [];
      default_model = s.legacy_default_model;
      fallback_provider = [];
      fallback_model = [];
      enabled = true;
    }
    ∷ []

-- A step of the migration gives the new configuration and whether it changed anything.
abbrev skip_if_ask : Permissions → Permissions
skip_if_ask ask = skip
skip_if_ask p = p

abbrev pub keep_authority : Task → Task
keep_authority t = record t { permissions = skip_if_ask t.permissions }

unfoldable pub migrate_permissions : Config → Config × Bool
migrate_permissions c =
    if c.settings.legacy_skip_permissions
    then (
      record c {
        tasks = map keep_authority c.tasks;
        settings = record c.settings { legacy_skip_permissions = false };
      },
      true,
    )
    else (c, false)

unfoldable pub migrate_providers : Config → Config × Bool
unfolding seed_providers
migrate_providers c =
    if is_empty c.providers
    then (record c { providers = seed_providers c.settings }, true)
    else (c, false)

abbrev pub first_id : List Provider → Text
first_id [] = []
first_id (p ∷ ps) = p.id

unfoldable pub migrate_default : Config → Config × Bool
migrate_default c =
    if is_empty c.settings.default_provider
    then (
      record c { settings = record c.settings { default_provider = first_id c.providers } },
      true,
    )
    else (c, false)

unfoldable pub migrate_beta : Config → Config × Bool
migrate_beta c =
    if is_some c.settings.legacy_beta_features || is_some c.settings.legacy_show_codex_beta
    then (
      record c {
        settings = record c.settings { legacy_beta_features = none; legacy_show_codex_beta = none };
      },
      true,
    )
    else (c, false)

unfoldable pub migrate_claude : Config → Config × Bool
migrate_claude c =
    if not (is_empty c.settings.legacy_claude_path)
      || not (is_empty c.settings.legacy_default_model)
    then (
      record c {
        settings = record c.settings { legacy_claude_path = []; legacy_default_model = [] };
      },
      true,
    )
    else (c, false)

unfoldable pub migrate_feedback : Config → Config × Bool
migrate_feedback c =
    if not (is_empty c.settings.legacy_feedback_provider)
      || not (is_empty c.settings.legacy_feedback_model)
    then (
      record c {
        settings = record c.settings {
          assistant_provider =
              if is_empty c.settings.assistant_provider
              then c.settings.legacy_feedback_provider
              else c.settings.assistant_provider;
          legacy_feedback_provider = [];
          legacy_feedback_model = [];
        };
      },
      true,
    )
    else (c, false)

abbrev pub then_step : Config × Bool → (Config → Config × Bool) → Config × Bool
then_step (c, changed) step = ((step c).0, changed || (step c).1)

unfoldable pub migrate : Config → Config × Bool
unfolding migrate_permissions migrate_providers migrate_default migrate_beta migrate_claude
    migrate_feedback
migrate c =
    then_step
      (then_step
        (then_step (then_step (then_step (migrate_permissions c) migrate_providers) migrate_default)
          migrate_beta)
        migrate_claude)
      migrate_feedback

abbrev pub minutes : ℕ → Time
minutes m = m * 60000000000

abbrev pub heartbeat_minutes_or : ℤ → ℕ
heartbeat_minutes_or (pos zero) = 60
heartbeat_minutes_or (pos (suc n)) = suc n
heartbeat_minutes_or (negsuc n) = 60

unfoldable pub heartbeat_or_default : Settings → Time
heartbeat_or_default s = minutes (heartbeat_minutes_or s.heartbeat_minutes)

abbrev pub idle_minutes_or : ℤ → ℕ
idle_minutes_or (pos zero) = 30
idle_minutes_or (pos (suc n)) = suc n
idle_minutes_or (negsuc n) = 0

unfoldable pub idle_timeout : Settings → Time
idle_timeout s = minutes (idle_minutes_or s.idle_timeout_minutes)

abbrev pub history_limit_of : ℤ → ℕ
history_limit_of (pos zero) = 500
history_limit_of (pos (suc n)) = suc n
history_limit_of (negsuc n) = 0

unfoldable pub run_history_limit : Settings → ℕ
run_history_limit s = history_limit_of s.max_run_history
