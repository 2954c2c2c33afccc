-- ===== src/Examples/Scheduling.antt =====
-- Due tasks, gates and joins.
use claudeq.Prelude.{
  ◌||◌, leb, text_eq, ◌≡◌, ◌↔◌, ◌&&◌, not, refl, true, false, [], ◌∷◌, codes, if◌then◌else◌, ◌==◌,
  keep_if, All, ◌≤◌,
}
use claudeq.Prelude.Strings.{trim_space}
use claudeq.Prelude.Result.{ok, is_ok}
use claudeq.Prelude.Assoc.{has, lookup}
use claudeq.Prelude.Sort.{sort}
use claudeq.Task.Checks.{validate, check_cron, check_group}
use claudeq.Schedule.Due.{Inputs, due}
use claudeq.Schedule.DueLaws.{IsDue, due_iff, due_never_fails}
use claudeq.Schedule.Select.{Running, select, held, is_named}
use claudeq.Schedule.SelectLaws.{IsAdmissible, select-IsAdmissible, has-held}
use claudeq.Limit.Gate.{new, block_all, is_open}
use claudeq.Limit.GateLaws.{is_open-block_all, block_all-perm}
use claudeq.Limit.Gates.{Gates, gate_for, block_provider, any_blocked_until, blocked}
use claudeq.Limit.GatesLaws.{
  gate_for-block_provider, IsEarliest, any_blocked_until-IsEarliest, blocked-keep_if,
}
use claudeq.Workflow.Dependencies.{ready, resolve, runs_of, runs_under, starts_before}
use claudeq.Workflow.Laws.{
  IsFinished, latest_run, queued_task, ready-resolve, of_workflow, runs_of-keep_if,
}
use claudeq.Examples.Data.{plain, watcher, second, join, parse, history}
use mathlib.Core.List.{map}
use mathlib.Core.List.Perm

abbrev at_twenty : Inputs
at_twenty = record {
  now = 20;
  running = false;
  completed_once = false;
  cron_anchor = 10;
  dependencies_met = true;
}

watcher_is_due : due parse watcher at_twenty ≡ ok true
unfolding due text_eq
watcher_is_due = refl

due_iff_example : (due parse watcher at_twenty ≡ ok true) ↔ IsDue parse watcher at_twenty
due_iff_example = due_iff parse watcher at_twenty

due_never_fails_example : is_ok (due parse watcher at_twenty) ≡ true
unfolding validate check_cron check_group trim_space text_eq
due_never_fails_example = due_never_fails parse watcher at_twenty refl refl

abbrev idle : Running
idle = record { non_parallel = false; parallel = false }

select_runs : select (watcher ∷ second ∷ plain ∷ []) idle ≡ watcher ∷ second ∷ []
unfolding select
select_runs = refl

select-IsAdmissible_example :
    IsAdmissible idle (watcher ∷ plain ∷ []) (select (watcher ∷ plain ∷ []) idle)
select-IsAdmissible_example = select-IsAdmissible (watcher ∷ plain ∷ []) idle

has-held_example : has (codes "fix") (held (watcher ∷ plain ∷ []) idle) ≡ (
    is_named (codes "fix") (watcher ∷ plain ∷ [])
    && not (is_named (codes "fix") (select (watcher ∷ plain ∷ []) idle)))
has-held_example = has-held (watcher ∷ plain ∷ []) idle (codes "fix")

is_open-block_all_example :
    (is_open 9 (block_all new (7 ∷ 5 ∷ [])) ≡ true)
    ↔ ((is_open 9 new ≡ true) × All (λ u. u ≤ 9) (7 ∷ 5 ∷ []))
is_open-block_all_example = is_open-block_all 9 new (7 ∷ 5 ∷ [])

block_all-perm_example : block_all new (7 ∷ 5 ∷ []) ≡ block_all new (5 ∷ 7 ∷ [])
block_all-perm_example = block_all-perm (7 ∷ 5 ∷ []) (5 ∷ 7 ∷ []) new (Perm.swap 5 7 [])

abbrev two_gates : Gates
two_gates =
    (codes "claude", record { closed_until = 9 })
    ∷ (codes "codex", record { closed_until = 7 })
    ∷ []

earliest_runs : any_blocked_until 5 two_gates ≡ 7
unfolding any_blocked_until
earliest_runs = refl

gate_for-block_provider_example :
    (is_open 8 (gate_for (block_provider two_gates (codes "codex") 12) (codes "claude")) ≡ (
      is_open 8 (gate_for two_gates (codes "claude"))
      && (not (codes "codex" == codes "claude") || leb 12 8)))
    × (gate_for (block_provider two_gates (codes "codex") 12) (codes "claude") ≡ (
        if codes "codex" == codes "claude"
        then gate_for (block_provider two_gates (codes "codex") 12) (codes "codex")
        else gate_for two_gates (codes "claude")))
gate_for-block_provider_example =
    gate_for-block_provider two_gates (codes "codex") (codes "claude") 12 8

any_blocked_until-IsEarliest_example : IsEarliest 5 0 (any_blocked_until 5 two_gates) two_gates
any_blocked_until-IsEarliest_example = any_blocked_until-IsEarliest 5 two_gates

blocked-keep_if_example :
    blocked 5 two_gates
    ≡ map (λ e. (e.0, e.1.closed_until)) (keep_if (λ e. not (is_open 5 e.1)) two_gates)
blocked-keep_if_example = blocked-keep_if 5 two_gates

join_goes : (ready (resolve join (plain ∷ []) history)).0 ≡ true
unfolding ready resolve text_eq
join_goes = refl

ready-resolve_example :
    ((ready (resolve join (plain ∷ []) history)).0 ≡ true)
    ↔ All (λ id. IsFinished (latest_run id history) (queued_task id (plain ∷ []))) join.depends_on
ready-resolve_example = ready-resolve join (plain ∷ []) history

runs_of-keep_if_example :
    runs_under (codes "w") (lookup (codes "w") (runs_of history))
    ≡ sort starts_before (keep_if (of_workflow (codes "w")) history)
runs_of-keep_if_example = runs_of-keep_if (codes "w") history refl
