-- ===== src/Store/History.antt =====
-- The run history of internal/store/store.go (`Runs`, `ReconcileRunningRuns`, `BackfillLastRuns`,
-- `PruneHistory`), over the events that the lines of history.jsonl decode to. Reading and writing
-- the file are not modelled: an operation gives the events that the file holds after it.
use claudeq.Prelude.{
  ℕ, suc, zero, ◌-◌, Bool, true, false, Option, none, some, List, [], ◌∷◌, ◌++◌, Text, codes, map,
  if◌then◌else◌, leb, is_empty, is_some, length, keep_if,
}
use claudeq.Prelude.Strings.{Time, after, drop}
use claudeq.Prelude.Assoc.{Assoc, lookup, insert}
use claudeq.Store.Run.{Run, RunStatus, running, failed}
use claudeq.Store.State.{State, last_run, record_run}

-- What the loop over the events holds: `latest` and `order`.
pub record Index : Type 0 where
  pub latest : Assoc Run
  pub order : List Text

unfoldable pub index_event : Index → Run → Index
unfolding lookup insert
index_event ix r = record {
  latest = insert r.run_id r ix.latest;
  order = if is_some (lookup r.run_id ix.latest) then ix.order else ix.order ++ r.run_id ∷ [];
}

unfoldable pub index_events : Index → List Run → Index
unfolding index_event
index_events ix [] = ix
index_events ix (r ∷ rs) = index_events (index_event ix r) rs

abbrev pub no_events : Index
no_events = record { latest = []; order = [] }

abbrev pub keep_run : Option Run → List Run → List Run
keep_run none rest = rest
keep_run (some r) rest = r ∷ rest

-- `out = append(out, latest[id])`: each id of `order` is in `latest`.
unfoldable pub pick : Assoc Run → List Text → List Run
unfolding lookup
pick latest [] = []
pick latest (id ∷ ids) = keep_run (lookup id latest) (pick latest ids)

-- `Runs`
unfoldable pub runs : List Run → List Run
unfolding index_events pick
runs events = pick (index_events no_events events).latest (index_events no_events events).order

abbrev pub is_running : RunStatus → Bool
is_running running = true
is_running _ = false

abbrev pub interrupted_text : Text
interrupted_text = codes "interrupted before completing (daemon stopped unexpectedly)"

unfoldable pub interrupt : Time → Run → Run
interrupt now r = record r {
  status = failed;
  finished_at = some now;
  error = if is_empty r.error then interrupted_text else r.error;
}

-- `ReconcileRunningRuns`: the events that it appends, one for each run that is still running.
unfoldable pub reconciled : Time → List Run → List Run
unfolding runs keep_if interrupt
reconciled now events = map (interrupt now) (keep_if (λ r. is_running r.status) (runs events))

unfoldable pub reconcile_running_runs : Time → List Run → List Run
unfolding reconciled
reconcile_running_runs now events = events ++ reconciled now events

abbrev pub starts_later : Time → Option Time → Bool
starts_later t none = true
starts_later t (some prev) = after t prev

-- The latest start of each task in the history.
unfoldable pub latest_starts : Assoc Time → List Run → Assoc Time
unfolding lookup insert
latest_starts m [] = m
latest_starts m (r ∷ rs) =
    if is_empty r.task_id
    then latest_starts m rs
    else latest_starts
        (if starts_later r.started_at (lookup r.task_id m)
          then insert r.task_id r.started_at m
          else m)
        rs

unfoldable pub fill_last_runs : Assoc Time → State → State
unfolding last_run record_run
fill_last_runs [] s = s
fill_last_runs (entry ∷ rest) s =
    fill_last_runs rest (if is_some (last_run s entry.0) then s else record_run entry.0 entry.1 s)

-- `BackfillLastRuns`
unfoldable pub backfill_last_runs : List Run → State → State
unfolding runs latest_starts fill_last_runs
backfill_last_runs events s = fill_last_runs (latest_starts [] (runs events)) s

-- `PruneHistory`, for a limit that is not negative: zero keeps everything.
unfoldable pub prune_history : ℕ → List Run → List Run
unfolding index_events pick
prune_history zero events = events
prune_history (suc n) events =
    let ix = index_events no_events events in
    if leb (length ix.order) (suc n)
    then events
    else pick ix.latest (drop (length ix.order - suc n) ix.order)
