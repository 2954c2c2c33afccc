-- ===== src/Engine/Pass.antt =====
-- A whole `Tick` of internal/engine/engine.go on an engine that nothing else changes meanwhile, and
-- `FromConfig` of internal/provider. The clock is read once.
use claudeq.Prelude.{
  Bool, ◌||◌, Option, none, some, List, [], ◌∷◌, Text, if◌then◌else◌, is_empty, map,
}
use claudeq.Prelude.Floats.{Floats}
use claudeq.Prelude.Strings.{Time}
use claudeq.Prelude.Assoc.{Assoc, insert}
use claudeq.Prelude.Result.{Result, ok, err, ◌>>=◌}
use claudeq.Task.Model.{Task}
use claudeq.Store.Config.{Provider}
use claudeq.Store.History.{runs}
use claudeq.Workflow.Dependencies.{Dependency}
use claudeq.Schedule.Due.{DueProblem}
use claudeq.Provider.Model.{Instance, Pool}
use claudeq.Provider.Set.{Set, SetProblem, new_set, with_pools}
use claudeq.Provider.Health.{Health}
use claudeq.Engine.State.{Engine, dependency_state}
use claudeq.Engine.Assign.{Surroundings, Assignment, WaitReason, backfill_last, assign}
use claudeq.Engine.Announce.{Announcement, Pass, refresh_provider_health}
use claudeq.Engine.Tick.{Hold, unassigned, runs_are_paused, Ticked, Launch, due_tasks, tick_locked}

-- `InstanceOf`
abbrev pub instance_of : Provider → Instance
instance_of p = record {
  id = p.id;
  kind = p.kind;
  name = p.name;
  binary_path = p.binary_path;
  config_dir = p.config_dir;
  default_model = p.default_model;
  fallback_provider = p.fallback_provider;
  fallback_model = p.fallback_model;
  enabled = p.enabled;
}

pub data TickProblem : Type 0 where
  no_provider_configured : TickProblem
  providers_unreadable : SetProblem → TickProblem
  due_failed : DueProblem → TickProblem

abbrev pub wrap_due {ℓ} : {A : Type ℓ} → Result DueProblem A → Result TickProblem A
wrap_due (ok a) = ok a
wrap_due (err e) = err (due_failed e)

module _ (fl : Floats) where
  abbrev pub configured :
      Text
      → List (Pool fl)
      → List Provider
      → Result SetProblem (Set fl)
      → Result TickProblem (Set fl)
  configured default_id pools ps (err e) = err (providers_unreadable e)
  configured default_id pools ps (ok set) = ok (with_pools fl set pools)

  -- `FromConfig`
  unfoldable pub from_config : Text → List Provider → List (Pool fl) → Result TickProblem (Set fl)
  unfolding new_set with_pools
  from_config default_id ps pools =
      if is_empty ps
      then err no_provider_configured
      else configured default_id pools ps (new_set fl default_id (map instance_of ps))

  -- What a tick reads besides the engine: the configuration, what the providers answer, whether the
  -- daemon stops during the probes, and what the runs that it starts are recorded as.
  pub record TickInputs : Type 0 where
    pub paused : Bool
    pub default_provider : Text
    pub providers : List Provider
    pub pools : List (Pool fl)
    pub backfill_urgency : fl.F
    pub around : Surroundings fl
    pub fresh : Instance → Option Health
    pub stopping : Bool
    pub has_notifier : Bool
    pub made : Launch fl

  abbrev pub reasons : Assoc (WaitReason fl) → Assoc (Hold fl)
  reasons waiting = map (λ (w : Text × WaitReason fl). (w.0, unassigned w.1)) waiting

  abbrev pub nothing_started :
      Engine → Option (Assoc (Hold fl)) → Assoc Text → List Announcement → Ticked fl
  nothing_started e holds announced sent = record {
    engine = e;
    starts = [];
    holds = holds;
    announced = announced;
    sent = sent;
  }

  -- `holdAll`: one reason for every task that is due; if that cannot be worked out, nothing changes.
  unfoldable pub hold_each : List Task → Assoc (Hold fl) → Assoc (Hold fl)
  unfolding insert
  hold_each [] m = m
  hold_each (t ∷ ts) m = hold_each ts (insert t.id runs_are_paused m)

  abbrev pub hold_all : Result DueProblem (List Task) → Option (Assoc (Hold fl))
  hold_all (err e) = none
  hold_all (ok due) = some (hold_each due [])

  module _ (parse_cron : Text → Option (Time → Time)) where
    abbrev pub after_probe :
        TickInputs
        → Assoc (List Dependency)
        → List (Assignment fl) × Assoc (WaitReason fl)
        → Engine
        → Pass fl
        → Result TickProblem (Ticked fl)
    after_probe i deps todo e p =
        let e' : Engine = record e { state = p.notices.state } in
        if p.cut_short || i.stopping
        then ok (nothing_started e' none p.notices.announced p.notices.sent)
        else wrap_due (
            tick_locked fl parse_cron i.made deps p.verdicts i.around.now p.notices.state
              (todo.0, reasons todo.1) e' p.notices.announced p.notices.sent)

    abbrev pub with_due :
        TickInputs
        → Set fl
        → Assoc (List Dependency)
        → Engine
        → Assoc Text
        → List Task
        → Result TickProblem (Ticked fl)
    with_due i set deps e announced due =
        let todo = assign fl i.around set e (some e.state) i.backfill_urgency (backfill_last due) in
        after_probe i deps todo e (
          refresh_provider_health fl i.fresh (some e.state) i.has_notifier set todo.0
            (record { announced = announced; state = e.state; sent = [] }))

    -- `Tick`, with the memo of the announced provider states.
    unfoldable pub tick : TickInputs → Engine → Assoc Text → Result TickProblem (Ticked fl)
    unfolding dependency_state runs due_tasks backfill_last assign refresh_provider_health
        tick_locked from_config
    tick i e announced =
        let deps = dependency_state e.queue e.queue (runs e.events) in
        let due = due_tasks parse_cron e deps i.around.now in
        if i.paused
        then ok (nothing_started e (hold_all due) announced [])
        else (from_config i.default_provider i.providers i.pools >>= λ set.
            wrap_due due >>= λ ts. with_due i set deps e announced ts)
