-- ===== src/Examples/Accounts.antt =====
-- Two providers, one of which a task names, and edits of them.
use claudeq.Prelude.{◌≡◌, refl, true, false, none, some, List, [], ◌∷◌, codes, ◌++◌, any, text_eq}
use claudeq.Prelude.Int.{pos}
use claudeq.Prelude.Result.{ok}
use claudeq.Task.Checks.{check_group}
use claudeq.Store.State.{new_state}
use claudeq.Store.Config.{Config}
use claudeq.Accounts.Lists.{stored}
use claudeq.Accounts.Edit.{Host}
use claudeq.Accounts.Links.{IsLinked}
use claudeq.Accounts.Sequence.{
  Change, Stored, adding, editing, switching, removing, defaulting, removing_pool, perform_all,
  perform_all-IsLinked,
}
use claudeq.Examples.Data.{plain}
use claudeq.Examples.Providers.{whole, claude, other, both}

abbrev host : Host whole
host = record {
  parse_cron = λ expr. some (λ t. t);
  is_registered = λ kind. true;
  join = λ dir rest. dir ++ codes "/" ++ rest;
  home = some (codes "/home/me");
  is_finite = λ w. true;
}

abbrev pub two : Config
two = record {
  settings = record {
    default_provider = codes "claude";
    legacy_default_model = [];
    legacy_skip_permissions = false;
    heartbeat_minutes = pos 0;
    legacy_claude_path = [];
    idle_timeout_minutes = pos 0;
    max_run_history = pos 0;
    paused = false;
    assistant_provider = [];
    assistant_model = [];
    legacy_feedback_provider = [];
    legacy_feedback_model = [];
    legacy_beta_features = none;
    legacy_show_codex_beta = none;
  };
  providers =
      stored (record claude { fallback_provider = codes "other" })
      ∷ stored (record other { fallback_provider = [] })
      ∷ [];
  tasks = record plain { provider = codes "other" } ∷ [];
}

abbrev before : Stored whole
before = record { accounts = record { config = two; pools = both ∷ [] }; state = new_state }

-- The first three are refused: the default, a provider in use, an id that is taken. The others are
-- carried out.
abbrev edits : List (Change whole)
edits =
    switching (codes "claude") false
    ∷ removing (codes "other")
    ∷ adding (record other { fallback_provider = [] })
    ∷ editing (codes "claude") (λ inst. ok (record inst { binary_path = codes "~/bin/claude" }))
    ∷ defaulting (codes "other")
    ∷ removing_pool (codes "both")
    ∷ []

two-IsLinked : IsLinked whole before.accounts
unfolding any text_eq
two-IsLinked = record {
  usable = refl;
  fallbacks = (refl, (refl, tt));
  members = ((refl, (refl, tt)), tt);
  tasks = (refl, tt);
}

perform_all-IsLinked_example : IsLinked whole (perform_all whole host edits before).accounts
perform_all-IsLinked_example = perform_all-IsLinked whole host edits before two-IsLinked

-- The default is the one that was asked for.
default_moved :
    (perform_all whole host edits before).accounts.config.settings.default_provider ≡ codes "other"
unfolding perform_all text_eq check_group
default_moved = refl
