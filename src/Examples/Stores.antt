-- ===== src/Examples/Stores.antt =====
-- A state, a configuration, a history and an inbox.
use claudeq.Prelude.{
  ◌≡◌, refl, true, false, none, some, List, [], ◌∷◌, codes, text_eq, if◌then◌else◌, ◌==◌, first,
  last_such, arith,
}
use claudeq.Prelude.Int.{pos}
use claudeq.Store.Run.{Run, running, success, failed}
use claudeq.Store.State.{State, new_state, forget_task}
use claudeq.Store.StateLaws.{history_of, history_of-forget_task}
use claudeq.Store.Config.{Config, Provider, migrate}
use claudeq.Store.Saving.{next_of, check_fallbacks, fallback_cycle}
use claudeq.Store.SavingLaws.{HaveEnds, check_fallbacks-HaveEnds}
use claudeq.Store.ConfigLaws.{migrate-migrate}
use claudeq.Store.History.{runs, reconcile_running_runs, is_running}
use claudeq.Store.HistoryLaws.{has_id, first-runs, reconcile_running_runs-stops}
use claudeq.Store.Outbox.{InboxEntry, add_inbox_entry}
use claudeq.Store.OutboxLaws.{IsInbox, ids_differ, add_inbox_entry-IsInbox}
use claudeq.Examples.Data.{plain, run_at}

abbrev started : State
started = record new_state { last_started = (codes "fix", 5) ∷ (codes "watch", 6) ∷ [] }

history_of-forget_task_example : history_of (forget_task (codes "fix") started) (codes "watch") ≡ (
    if codes "fix" == codes "watch"
    then (none, (none, (false, none)))
    else history_of started (codes "watch"))
history_of-forget_task_example = history_of-forget_task (codes "fix") (codes "watch") started

abbrev old_config : Config
old_config = record {
  settings = record {
    default_provider = [];
    legacy_default_model = codes "opus";
    legacy_skip_permissions = true;
    heartbeat_minutes = pos 0;
    legacy_claude_path = codes "/bin/claude";
    idle_timeout_minutes = pos 0;
    max_run_history = pos 0;
    paused = false;
    assistant_provider = [];
    assistant_model = [];
    legacy_feedback_provider = codes "claude";
    legacy_feedback_model = [];
    legacy_beta_features = some false;
    legacy_show_codex_beta = none;
  };
  providers = [];
  tasks = plain ∷ [];
}

old_config_changes : (migrate old_config).1 ≡ true
unfolding migrate
old_config_changes = refl

migrate-migrate_example : migrate (migrate old_config).0 ≡ ((migrate old_config).0, false)
migrate-migrate_example = migrate-migrate old_config refl

abbrev events : List Run
events =
    run_at (codes "r1") 3 running []
    ∷ run_at (codes "r2") 5 running []
    ∷ run_at (codes "r1") 3 success []
    ∷ []

first-runs_example :
    first (has_id (codes "r1")) (runs events) ≡ last_such (has_id (codes "r1")) events none
first-runs_example = first-runs (codes "r1") events

abbrev interrupted : Run
interrupted = record (run_at (codes "r2") 5 failed []) {
  finished_at = some 9;
  error = codes "interrupted before completing (daemon stopped unexpectedly)";
}

reconcile_running_runs-stops_example : is_running interrupted.status ≡ false
unfolding reconcile_running_runs first text_eq
reconcile_running_runs-stops_example =
    reconcile_running_runs-stops 9 events (codes "r2") interrupted refl

abbrev entry : InboxEntry
entry = record {
  id = codes "n1";
  kind = codes "task";
  title = codes "Done";
  message = [];
  artifact_id = [];
  run_id = [];
  url = [];
  task_id = [];
  task_name = [];
  sent_at = 4;
  read = false;
}

empty-IsInbox : IsInbox []
unfolding ids_differ
empty-IsInbox = record { ids = refl; bounded = omega arith }

add_inbox_entry-IsInbox_example : IsInbox (entry ∷ [])
unfolding add_inbox_entry
add_inbox_entry-IsInbox_example = add_inbox_entry-IsInbox entry [] (entry ∷ []) empty-IsInbox refl

abbrev provider_to : Provider
provider_to = record {
  id = codes "a";
  kind = [];
  name = [];
  binary_path = [];
  config_dir = [];
  default_model = [];
  fallback_provider = codes "b";
  fallback_model = [];
  enabled = true;
}

abbrev chained : List Provider
chained = provider_to ∷ record provider_to { id = codes "b"; fallback_provider = [] } ∷ []

abbrev circular : List Provider
circular = provider_to ∷ record provider_to { id = codes "b"; fallback_provider = codes "a" } ∷ []

chained_passes : check_fallbacks chained ≡ none
unfolding check_fallbacks text_eq
chained_passes = refl

circular_fails : check_fallbacks circular ≡ some (fallback_cycle (codes "a"))
unfolding check_fallbacks text_eq
circular_fails = refl

check_fallbacks-HaveEnds_example : HaveEnds (next_of chained []) chained (check_fallbacks chained)
check_fallbacks-HaveEnds_example = check_fallbacks-HaveEnds chained
