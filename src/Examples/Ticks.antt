-- ===== src/Examples/Ticks.antt =====
-- A whole tick, and a life of runs among its steps.
use claudeq.Prelude.{◌≡◌, refl, none, some, List, [], ◌∷◌, Text, codes, text_eq}
use claudeq.Prelude.Assoc.{Assoc}
use claudeq.Store.State.{new_state}
use claudeq.Engine.State.{Engine}
use claudeq.Engine.Assign.{Assignment, WaitReason, assign}
use claudeq.Engine.AssignLaws.{Settles, assign-Settles}
use claudeq.Examples.Data.{plain, watcher}
use claudeq.Examples.Providers.{whole, configured, all_well}
use claudeq.Prelude.{All, map, if◌then◌else◌, true, false}
use claudeq.Prelude.Result.{Result, ok, err}
use claudeq.Prelude.Assoc.{lookup}
use claudeq.Task.Model.{Task, script}
use claudeq.Prelude.Int.{pos}
use claudeq.Schedule.Due.{DueProblem}
use claudeq.Store.Config.{Provider}
use claudeq.Store.Run.{Run, RunStatus, running}
use claudeq.Store.Saving.{check_unique_ids}
use claudeq.Schedule.Select.{is_named}
use claudeq.Provider.Model.{Instance}
use claudeq.Engine.Tick.{Ticked, Launch, tasks_of, tick_locked}
use claudeq.Engine.Finish.{Outcome, release}
use claudeq.Engine.Steps.{settle_state}
use claudeq.Engine.Lifecycle.{
  Live, live_of, written, released, started, completed, Reached, idle, lock, start, free, write_end,
}
use claudeq.Engine.LifecycleLaws.{NoRestart, Unlike, IsActive, live_ids}
use claudeq.Engine.OnceOnly.{Reached-IsOrderly}
use claudeq.Engine.Pass.{TickInputs, TickProblem, nothing_started, tick}
use claudeq.Engine.TickStarts.{IsStartable, tick-IsStartable}
use claudeq.Prelude.{inl, is_empty}
use claudeq.Prelude.Strings.{trim_space}
use claudeq.Task.Checks.{validate, check_group}
use claudeq.Store.State.{is_completed_once, is_marked}
use claudeq.Schedule.DueLaws.{IsDue}
use claudeq.Workflow.Dependencies.{ready}
use claudeq.Provider.Set.{Set}
use claudeq.Engine.State.{met, seed_cron_anchors}
use claudeq.Engine.TickStarts.{moment}
use claudeq.Engine.Pass.{from_config}
use claudeq.Engine.Liveness.{tick-progress}
use claudeq.Examples.Data.{parse, join, run_at}
use claudeq.Examples.Providers.{claude, spent, other, is_fine}

-- The gate of one provider is closed.
abbrev one_closed : Engine
one_closed = record {
  active = [];
  canceled = [];
  takeovers = [];
  non_parallel_active = 0;
  parallel_active = 0;
  running_on = [];
  gates = (codes "claude", record { closed_until = 50 }) ∷ [];
  state = new_state;
  events = [];
  queue = [];
}

abbrev assigned_now : List (Assignment whole) × Assoc (WaitReason whole)
assigned_now = assign whole all_well configured one_closed (some new_state) 1 (plain ∷ watcher ∷ [])

abbrev runs_on : List (Assignment whole) → List Text
runs_on [] = []
runs_on (a ∷ others) = (elim a.resolved [ none ↦ [] | some res ↦ res.inst.id ]) ∷ runs_on others

both_go_elsewhere : runs_on assigned_now.0 ≡ codes "other" ∷ codes "other" ∷ []
unfolding assign text_eq
both_go_elsewhere = refl

assign-Settles_example : Settles whole all_well one_closed (plain ∷ watcher ∷ []) assigned_now
assign-Settles_example =
    assign-Settles whole all_well one_closed configured (some new_state) 1 (plain ∷ watcher ∷ [])

-- An engine at rest with three tasks queued, of which the first may run anywhere.
abbrev waiting : Engine
waiting = record one_closed { queue = plain ∷ watcher ∷ join ∷ [] }

abbrev launched : Launch whole
launched ready t = ([], run_at t.id 10 running [])

abbrev stored : Instance → Provider
stored i = record {
  id = i.id;
  kind = i.kind;
  name = i.name;
  binary_path = i.binary_path;
  config_dir = i.config_dir;
  default_model = i.default_model;
  fallback_provider = i.fallback_provider;
  fallback_model = i.fallback_model;
  enabled = i.enabled;
}

abbrev asked : TickInputs whole
asked = record {
  paused = false;
  default_provider = codes "claude";
  providers = stored claude ∷ stored spent ∷ stored other ∷ [];
  pools = [];
  backfill_urgency = 1;
  around = all_well;
  fresh = λ inst. some is_fine;
  stopping = false;
  has_notifier = true;
  made = launched;
}

abbrev or_idle : Result TickProblem (Ticked whole) → Ticked whole
or_idle (ok r) = r
or_idle (err e) = nothing_started whole waiting none [] []

abbrev ticked : Ticked whole
ticked = or_idle (tick whole parse asked waiting [])

one_starts : map (λ (t : Task). t.id) (tasks_of whole ticked.starts) ≡ plain.id ∷ []
unfolding tick text_eq lookup new_state
one_starts = refl

tick-IsStartable_example :
    All (IsStartable whole parse asked waiting) ticked.starts
    × ((id : Text)
        → lookup id ticked.engine.active ≡ (
            if is_named id (tasks_of whole ticked.starts)
            then some true
            else lookup id waiting.active))
unfolding tick text_eq lookup new_state check_unique_ids
tick-IsStartable_example = tick-IsStartable whole parse asked waiting [] ticked refl refl

abbrev sweep : Task
sweep = record plain { id = codes "sweep"; kind = script }

abbrev sweep_only : List (Assignment whole)
sweep_only = record { task = sweep; resolved = none; problem = none } ∷ []

abbrev clean : Outcome
clean = record {
  session_id = [];
  model = [];
  status = RunStatus.success;
  message = [];
  exit_code = pos 0;
  retry_after = 0;
  reset_at = 0;
  final_output = [];
}

abbrev or_started : Result DueProblem (Ticked whole) → Ticked whole
or_started (ok r) = r
or_started (err e) = nothing_started whole waiting none [] []

abbrev looked : Ticked whole
looked =
    or_started
      (tick_locked whole parse launched [] [] 10 waiting.state (sweep_only, []) waiting [] [])

abbrev each_run : Task → Text × Run
each_run t = launched [] t

abbrev swept : Live
swept = live_of sweep (each_run sweep)

-- A script starts, and its end is recorded while the next tick has loaded the state already.
abbrev life :
    Reached whole parse
      (settle_state sweep [] 30 5 clean RunStatus.success
        (release sweep [] (each_run sweep).1.run_id looked.engine))
      (some (release sweep [] (each_run sweep).1.run_id looked.engine).state)
      (record swept { phase = written } ∷ [])
      (completed (codes "sweep") ∷ started sweep ∷ [])
unfolding tick_locked lookup text_eq new_state
life =
    write_end (release sweep [] (each_run sweep).1.run_id looked.engine) _ []
      (record swept { phase = released RunStatus.success }) [] (started sweep ∷ [])
      (lock _ _ _ (
        free looked.engine [] swept [] (started sweep ∷ [])
          (start waiting waiting.state [] [] (lock waiting [] [] (idle waiting refl)) launched
            each_run [] [] 10 sweep_only [] [] [] looked (tt, tt) refl)
          refl RunStatus.success))
      RunStatus.success refl 30 5 clean

Reached-IsOrderly_example :
    NoRestart (completed (codes "sweep") ∷ started sweep ∷ [])
    × Unlike (live_ids (record swept { phase = written } ∷ []))
    × IsActive
        (settle_state sweep [] 30 5 clean RunStatus.success
          (release sweep [] (each_run sweep).1.run_id looked.engine)).active
        (live_ids (record swept { phase = written } ∷ []))
Reached-IsOrderly_example = Reached-IsOrderly whole parse _ _ _ _ life

-- Only the script is queued, and the gate of its would-be provider is closed.
abbrev only_script : Engine
only_script = record one_closed { queue = sweep ∷ [] }

abbrev no_pools : Set whole
no_pools = record {
  instances = claude ∷ spent ∷ other ∷ [];
  default_id = codes "claude";
  pools = [];
}

sweep_fires : IsDue parse sweep (moment whole parse asked only_script sweep)
unfolding is_completed_once new_state lookup met ready seed_cron_anchors is_marked
sweep_fires = record { switched_on = refl; idle = refl; input_exists = inl refl; fires = refl }

tick-progress_example :
    (r : Ticked whole) × (tick whole parse asked only_script [] ≡ ok r)
    × (is_empty r.starts ≡ false)
unfolding from_config text_eq validate trim_space check_group
tick-progress_example =
    tick-progress whole parse asked only_script no_pools [] sweep refl ((refl, refl), tt) refl refl
      (λ inst. refl) refl refl (inl refl) refl sweep_fires
