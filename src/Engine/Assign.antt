-- ===== src/Engine/Assign.antt =====
-- `assign` of internal/engine/engine.go: where each due task would run, one task after the other.
use claudeq.Prelude.{
  ℕ, ◌+◌, Bool, true, false, not, ◌&&◌, Option, none, some, List, [], ◌∷◌, Text, if◌then◌else◌,
  is_empty,
}
use claudeq.Prelude.Floats.{Floats}
use claudeq.Prelude.Sort.{sort}
use claudeq.Prelude.Strings.{Time}
use claudeq.Prelude.Assoc.{Assoc, lookup, insert}
use claudeq.Prelude.Result.{Result, ok, err}
use claudeq.Task.Model.{Task, is_script}
use claudeq.Store.State.{State, PendingResume, pending_resume}
use claudeq.Limit.Gate.{is_open}
use claudeq.Limit.Gates.{Gates, gate_for}
use claudeq.Provider.Model.{Instance, Limits}
use claudeq.Provider.Set.{Set}
use claudeq.Provider.Health.{Health, known_unready}
use claudeq.Provider.Selection.{
  Selection, Resolved, SelectProblem, no_spare, no_spare_in_pool, Availability,
}
use claudeq.Provider.Resolve.{resolve_available}
use claudeq.Engine.State.{Engine}
use claudeq.Engine.Start.{or_no_runs}

abbrev backfill_after : Task → Task → Bool
backfill_after a b = not a.backfill && b.backfill

-- Backfill work never goes ahead of other work.
unfoldable pub backfill_last : List Task → List Task
unfolding sort
backfill_last due = sort backfill_after due

-- `gateOpen`
unfoldable pub gate_open : Time → Gates → Text → Bool
unfolding is_open gate_for
gate_open now gates id = is_open now (gate_for gates id)

abbrev pub count_of : Text → Assoc ℕ → ℕ
count_of id m = or_no_runs (lookup id m)

module _ (fl : Floats) where
  abbrev preferred : Option PendingResume → Text
  preferred none = []
  preferred (some p) = p.provider_id

  -- `selectionFor`, with the backfill setting; the state is `none` when it could not be read.
  unfoldable pub selection_for : Task → Option State → fl.F → Selection fl
  unfolding pending_resume
  selection_for t st backfill = record {
    provider_id = t.provider;
    model = t.model;
    pool_id = t.pool;
    prefer =
        if is_empty t.pool
        then []
        else elim st [ none ↦ [] | some s ↦ preferred (pending_resume s t.id) ];
    backfill = t.backfill;
    min_urgency = backfill;
  }

  -- What the pass asks about the providers: their remembered health and limits are arguments.
  pub record Surroundings : Type 0 where
    pub now : Time
    pub health : Instance → Health
    pub limits : Instance → Limits fl × Bool

  -- `availability`, with the runs that this pass has planned.
  unfoldable pub availability : Surroundings → Engine → Assoc ℕ → Availability fl
  unfolding gate_open known_unready lookup
  availability su e planned = record {
    out_of_allowance = some (λ id. not (gate_open su.now e.gates id));
    can_take_work = some (λ inst. not (known_unready (su.health inst)));
    limits = some su.limits;
    running = some (λ id. count_of id e.running_on + count_of id planned);
    now = some su.now;
  }

  pub record Assignment : Type 0 where
    pub task : Task
    pub resolved : Option (Resolved fl)
    pub problem : Option (SelectProblem fl)

  pub data WaitReason : Type 0 where
    state_unreadable : WaitReason
    without_spare : SelectProblem fl → WaitReason
    out_until : Instance → WaitReason

  -- What becomes of one task: an assignment, or a reason to wait.
  pub data Placing : Type 0 where
    assigned : Assignment → Placing
    waits : WaitReason → Placing

  abbrev pub unresolved : Task → SelectProblem fl → Placing
  unresolved t (no_spare n) = waits (without_spare (no_spare n))
  unresolved t (no_spare_in_pool p ns) = waits (without_spare (no_spare_in_pool p ns))
  unresolved t problem = assigned (record { task = t; resolved = none; problem = some problem })

  abbrev pub place_resolved :
      Surroundings → Engine → Task → Result (SelectProblem fl) (Resolved fl) → Placing
  place_resolved su e t (err problem) = unresolved t problem
  place_resolved su e t (ok res) =
      if gate_open su.now e.gates res.inst.id
      then assigned (record { task = t; resolved = some res; problem = none })
      else waits (out_until res.inst)

  abbrev pub is_unread : Option State → Bool
  is_unread none = true
  is_unread (some s) = false

  unfoldable pub place_task :
      Surroundings → Set fl → Engine → Option State → fl.F → Assoc ℕ → Task → Placing
  unfolding is_script selection_for availability resolve_available gate_open
  place_task su set e st backfill planned t =
      if is_script t
      then assigned (record { task = t; resolved = none; problem = none })
      else if not (is_empty t.pool) && is_unread st
      then waits state_unreadable
      else place_resolved su e t
          (resolve_available fl set (selection_for t st backfill) (availability su e planned))

  abbrev pub plan_on : Option (Resolved fl) → Assoc ℕ → Assoc ℕ
  plan_on none planned = planned
  plan_on (some res) planned = insert res.inst.id (count_of res.inst.id planned + 1) planned

  abbrev pub plan : Placing → Assoc ℕ → Assoc ℕ
  plan (assigned a) planned = plan_on a.resolved planned
  plan (waits w) planned = planned

  abbrev pub add_placing :
      Task → Placing → List Assignment × Assoc WaitReason → List Assignment × Assoc WaitReason
  add_placing t (assigned a) rest = (a ∷ rest.0, rest.1)
  add_placing t (waits w) rest = (rest.0, (t.id, w) ∷ rest.1)

  -- The assignments, and why each task that is left out waits.
  unfoldable pub assign_from :
      Surroundings
      → Set fl
      → Engine
      → Option State
      → fl.F
      → Assoc ℕ
      → List Task
      → List Assignment × Assoc WaitReason
  unfolding place_task insert lookup
  assign_from su set e st backfill planned [] = ([], [])
  assign_from su set e st backfill planned (t ∷ ts) =
      let placing = place_task su set e st backfill planned t in
      add_placing t placing (assign_from su set e st backfill (plan placing planned) ts)

  unfoldable pub assign :
      Surroundings
      → Set fl
      → Engine
      → Option State
      → fl.F
      → List Task
      → List Assignment × Assoc WaitReason
  unfolding assign_from
  assign su set e st backfill due = assign_from su set e st backfill [] due
