-- ===== src/Engine/Tick.antt =====
-- `Tick` of internal/engine/engine.go: which tasks are due, where each would run, what the probe of
-- its provider says, and the second look under the lock that decides what starts.
use claudeq.Prelude.{
  Bool, false, not, ◌||◌, Option, none, some, List, [], ◌∷◌, ◌++◌, Text, if◌then◌else◌, is_empty,
  map,
}
use claudeq.Prelude.Floats.{Floats}
use claudeq.Prelude.Strings.{Time}
use claudeq.Prelude.Assoc.{Assoc, lookup, insert, delete}
use claudeq.Prelude.Result.{Result, ok, ◌>>=◌}
use claudeq.Task.Model.{Task, is_script}
use claudeq.Store.Run.{Run}
use claudeq.Store.State.{State}
use claudeq.Workflow.Dependencies.{Dependency}
use claudeq.Schedule.Due.{DueProblem}
use claudeq.Schedule.Select.{HoldReason, select, held}
use claudeq.Provider.Model.{Instance}
use claudeq.Provider.Health.{Health, may_start}
use claudeq.Provider.Selection.{SelectProblem, Resolved}
use claudeq.Engine.State.{Engine, running_state, is_due, seed_cron_anchors}
use claudeq.Engine.Start.{start_due}
use claudeq.Engine.Assign.{Assignment, WaitReason}
use claudeq.Engine.Announce.{Announcement}

module _ (parse_cron : Text → Option (Time → Time)) where
  abbrev put_if : Bool → Task → List Task → List Task
  put_if yes_ t rest = if yes_ then t ∷ rest else rest

  -- The loop of `dueTasks`, over a state that has its cron anchors.
  unfoldable pub due_from :
      Engine → State → Assoc (List Dependency) → Time → List Task → Result DueProblem (List Task)
  unfolding is_due
  due_from e s deps now [] = ok []
  due_from e s deps now (t ∷ ts) = is_due parse_cron e t s deps now >>= λ is_now.
      due_from e s deps now ts >>= λ rest. ok (put_if is_now t rest)

  -- `dueTasks`
  unfoldable pub due_tasks : Engine → Assoc (List Dependency) → Time → Result DueProblem (List Task)
  unfolding due_from seed_cron_anchors
  due_tasks e deps now = due_from e (seed_cron_anchors e.queue e.state now).0 deps now e.queue

module _ (fl : Floats) where
  -- Why a due task does not start.
  pub data Hold : Type 0 where
    unassigned : WaitReason fl → Hold
    unresolvable : SelectProblem fl → Hold
    provider_unfit : Option Instance → Hold
    not_selected : HoldReason → Hold
    runs_are_paused : Hold

  -- A task that may start, with where it runs; a script runs nowhere.
  pub record Cleared : Type 0 where
    pub task : Task
    pub resolved : Option (Resolved fl)

  -- `providerHealth.ready`: an instance that was not probed is not ready.
  abbrev pub verdict_fit : Option Health → Bool
  verdict_fit none = false
  verdict_fit (some h) = may_start h

  unfoldable pub is_fit : Assoc Health → Option (Resolved fl) → Bool
  unfolding lookup may_start
  is_fit health none = false
  is_fit health (some res) = verdict_fit (lookup res.inst.id health)

  abbrev pub inst_of : Option (Resolved fl) → Option Instance
  inst_of none = none
  inst_of (some res) = some res.inst

  -- What the second look makes of an assignment.
  pub data Verdict : Type 0 where
    goes : Verdict
    no_longer_due : Verdict
    stays : Hold → Verdict

  abbrev pub verdict_of : Assignment fl → Bool → Assoc Health → Verdict
  verdict_of a still_due health = if not still_due then no_longer_due else elim a.problem [
    | some problem ↦ stays (unresolvable problem)
    | none ↦
        if is_script a.task
        then goes
        else if is_fit health a.resolved
        then goes
        else stays (provider_unfit (inst_of a.resolved))
  ]

  -- What may start, and why the others wait.
  abbrev pub Sifted : Type 0
  Sifted = List Cleared × Assoc Hold

  abbrev pub sift : Assignment fl → Verdict → Sifted → Sifted
  sift a goes out = (out.0 ++ record { task = a.task; resolved = a.resolved } ∷ [], out.1)
  sift a no_longer_due out = (out.0, delete a.task.id out.1)
  sift a (stays why) out = (out.0, insert a.task.id why out.1)

  -- `ready`: where each task that may start runs.
  unfoldable pub ready_from :
      Assoc (Option (Resolved fl)) → List Cleared → Assoc (Option (Resolved fl))
  unfolding insert
  ready_from m [] = m
  ready_from m (c ∷ cs) = ready_from (insert c.task.id c.resolved m) cs

  abbrev pub or_nowhere : Option (Option (Resolved fl)) → Option (Resolved fl)
  or_nowhere none = none
  or_nowhere (some res) = res

  abbrev pub tasks_of : List Cleared → List Task
  tasks_of cs = map (λ (c : Cleared). c.task) cs

  -- The tasks that a tick starts, each with its place.
  unfoldable pub placements : Assoc (Option (Resolved fl)) → List Task → List Cleared
  unfolding lookup
  placements ready [] = []
  placements ready (t ∷ ts) =
      record { task = t; resolved = or_nowhere (lookup t.id ready) } ∷ placements ready ts

  -- `maps.Copy`
  unfoldable pub copy_holds : Assoc HoldReason → Assoc Hold → Assoc Hold
  unfolding insert
  copy_holds [] m = m
  copy_holds (entry ∷ rest) m = copy_holds rest (insert entry.0 (not_selected entry.1) m)

  -- What a tick leaves: the engine, what it started and why the other due tasks wait; `none` leaves
  -- the reasons of the tick before.
  pub record Ticked : Type 0 where
    pub engine : Engine
    pub starts : List Cleared
    pub holds : Option (Assoc Hold)
    pub announced : Assoc Text
    pub sent : List Announcement

  -- The record of a run that starts, with the provider instance it goes to, or an empty id.
  abbrev pub Launch : Type 0
  Launch = Assoc (Option (Resolved fl)) → Task → Text × Run

  module _ (parse_cron : Text → Option (Time → Time)) where
    -- The second look, in the order of the assignments. `s` is the state as it was loaded under
    -- the lock, with its cron anchors.
    unfoldable pub sift_all :
        Engine
        → State
        → Assoc (List Dependency)
        → Assoc Health
        → Time
        → List (Assignment fl)
        → Sifted
        → Result DueProblem Sifted
    unfolding is_due is_fit is_script insert delete
    sift_all e s deps health now [] out = ok out
    sift_all e s deps health now (a ∷ rest) out =
        is_due parse_cron e a.task s deps now >>= λ is_now.
        sift_all e s deps health now rest (sift a (verdict_of a is_now health) out)

    abbrev pub engine_started :
        Launch → Assoc (Option (Resolved fl)) → Bool → Time → List Task → Engine → Engine
    engine_started made ready seeded now runnable e =
        let starts = select runnable (running_state e) in
        start_due runnable (made ready) now (
          if seeded || not (is_empty starts)
          then record e { state = (seed_cron_anchors e.queue e.state now).0 }
          else e)

    abbrev pub finish_tick :
        Launch → Bool → Time → Engine → Assoc Text → List Announcement → Sifted → Ticked
    finish_tick made seeded now e announced sent out =
        let runnable = tasks_of out.0 in
        let ready = ready_from [] out.0 in
        record {
          engine = engine_started made ready seeded now runnable e;
          starts = placements ready (select runnable (running_state e));
          holds = some (copy_holds (held runnable (running_state e)) out.1);
          announced = announced;
          sent = sent;
        }

    -- The part of a tick that holds the lock, from the state `snapshot` that it loads there.
    unfoldable pub tick_locked :
        Launch
        → Assoc (List Dependency)
        → Assoc Health
        → Time
        → State
        → List (Assignment fl) × Assoc Hold
        → Engine
        → Assoc Text
        → List Announcement
        → Result DueProblem Ticked
    unfolding sift_all seed_cron_anchors select running_state held start_due ready_from placements
        copy_holds
    tick_locked made deps health now snapshot todo e announced sent =
        let seeded = seed_cron_anchors e.queue snapshot now in
        sift_all e seeded.0 deps health now todo.0 ([], todo.1) >>= λ out.
        ok (finish_tick made seeded.1 now e announced sent out)
