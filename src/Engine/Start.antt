-- ===== src/Engine/Start.antt =====
-- The start of runs: the end of `Tick`, and what `launchTask` changes before the run goes off.
use claudeq.Prelude.{
  ℕ, suc, Bool, true, Option, none, some, List, [], ◌∷◌, ◌++◌, Text, if◌then◌else◌, is_empty,
}
use claudeq.Prelude.Strings.{Time}
use claudeq.Prelude.Assoc.{Assoc, lookup, insert}
use claudeq.Task.Model.{Task}
use claudeq.Store.Run.{Run}
use claudeq.Store.State.{State, record_start, record_run}
use claudeq.Schedule.Select.{select}
use claudeq.Engine.State.{Engine, running_state}

abbrev pub or_no_runs : Option ℕ → ℕ
or_no_runs none = 0
or_no_runs (some n) = n

unfoldable pub count_up : Text → Assoc ℕ → Assoc ℕ
unfolding lookup insert
count_up id m = if is_empty id then m else insert id (suc (or_no_runs (lookup id m))) m

-- The slot that a run takes.
unfoldable pub take_slot : Bool → Engine → Engine
take_slot parallel e =
    if parallel
    then record e { parallel_active = suc e.parallel_active }
    else record e { non_parallel_active = suc e.non_parallel_active }

-- `launchTask`, with the record of the run and the provider that it goes to.
unfoldable pub launch_task : Task → Text → Run → Engine → Engine
unfolding count_up take_slot insert
launch_task t provider_id rec e = take_slot t.parallel (record e {
  events = if t.quiet_history then e.events else e.events ++ rec ∷ [];
  active = insert t.id true e.active;
  running_on = count_up provider_id e.running_on;
})

-- The state after the starts are recorded.
unfoldable pub record_starts : List Task → Time → State → State
unfolding record_start record_run
record_starts [] now s = s
record_starts (t ∷ ts) now s = record_starts ts now (record_run t.id now (record_start t.id now s))

-- The provider and the record of each start are worked out before.
unfoldable pub launch_all : List Task → (Task → Text × Run) → Engine → Engine
unfolding launch_task
launch_all [] made e = e
launch_all (t ∷ ts) made e = launch_all ts made (launch_task t (made t).0 (made t).1 e)

-- What a tick does with the tasks that can run: it selects, records and launches.
unfoldable pub start_due : List Task → (Task → Text × Run) → Time → Engine → Engine
unfolding select running_state record_starts launch_all
start_due runnable made now e =
    let starts = select runnable (running_state e) in
    launch_all starts made (record e { state = record_starts starts now e.state })
