-- ===== src/Lib.antt =====
-- A verification library for the dispatchq daemon (Go, under cmd/ and internal/).
--
-- dispatchq keeps a queue of unattended agent jobs. On each tick its engine asks which tasks are
-- due, on which provider each would run, and which of those may start together; it records every
-- run, closes the gate of a provider that reports a rate limit, and resumes the session when the
-- gate reopens. The modules model these parts; each is a tree that begins with the definitions and
-- has its laws beside them.
--
-- - Task: internal/task/task.go, internal/task/cron.go, genTaskID of internal/api/api.go: `Model`
--   is the task record, `Checks` is Validate and the checks below it, `Slug` and `Ids` make ids.
-- - Schedule: internal/schedule/schedule.go: `Due` is Due, `Select` is Select and Held.
-- - Limit: internal/limit/limit.go: `Gate` is Gate, `Gates` is the map of gates.
-- - Store: internal/store: `Run` is run.go, `State` is state.go, `Config`, `Saving` and `History`
--   are store.go, `Outbox` is inbox.go and notification.go.
-- - Workflow: internal/workflow/workflow.go: `Dependencies` is Resolve, Ready, Status and RunsOf.
-- - Provider: internal/provider: `Set`, `Resolve`, `Fallback` and `Selection` are resolve.go,
--   `Windows`, `Score` and `Rank` are pool.go, `Collector` is collect.go, `Health` is the cache
--   of health.go, `Monitor` that of limits.go.
-- - Queue: internal/app/app.go: `Order` is GroupedOrder and the move of a task, `Groups` the
--   operations on groups, `Edit` those on one task; `Bag` is what requests do to the queue when
--   the order is left aside, and `Refinement` that they do so.
-- - Engine: internal/engine/engine.go: `State` is what the engine keeps and asks, `Assign` is
--   assign, `Announce` the health pass, `Tick` and `Pass` are Tick, `Start` is launchTask,
--   `Steps` the start by hand, cancelRun, the end of a run and cancelResume, one lock step each,
--   `Finish` the end of a run at once, `Lifecycle` any interleaving of the lock steps, `Output`
--   clipOutput and the clip of internal/workflow.
-- - Accounts: internal/app/provider.go, internal/app/pool.go: `Edit` is the operations, `Lists`
--   the lists they change and what still names a provider, `Validate`
--   internal/provider/validate.go and ValidatePool, `Sequence` one operation after another,
--   `Targets` what refuses to file work for a provider.
-- - Bundle: internal/bundle/bundle.go: `Files` finds an entry of the archive, `Format` is Write
--   and Read, `Export` and `Import` are internal/app/bundle.go; `RoundTrip` is what Read gets
--   back, `Decimal` and `FreshId` lead to the id that `ImportLaws` shows to be free.
-- - Wake: internal/wake/wake.go: `Next` is NextWakeTime, `Scheduler` the wakes that are
--   registered.
-- - Prelude: what the modules share: tests, lists, texts, maps, the stable sort, ladders of
--   checks.
-- - Examples: tests, and each theorem at an input that meets its hypotheses.
--
-- A text is the list of the code points that `range` visits, and `Engine.Output` has its bytes in
-- UTF-8 too, where the source works on those; a time is a number of nanoseconds after the zero
-- time; a Go map is an association list whose lookups see the first entry of a key; a nil error is
-- `none`, and other errors are constructors without their wording. A method that holds a mutex is
-- one step. `Finish` takes the end of a run as one step, though the source takes its lock twice on
-- the way; `Lifecycle` has the steps apart. Crontab parsing, zip archives, JSON, random bytes, the
-- clock and what the provider CLIs answer come from outside, as arguments. Files, HTTP, processes,
-- notifications and the command line are not modelled.
--
-- Two loops that follow fallbacks run on fuel: one more than the instances for the walk, two more
-- than the entries of the map for the check. Each round sees an id for the first time, but for the
-- last. The search for a free id has one round more than there are tasks, and no two rounds try the
-- same id; the digits of a number n take at most n + 1 rounds.
pub mod Prelude
pub mod Task
pub mod Schedule
pub mod Limit
pub mod Store
pub mod Workflow
pub mod Provider
pub mod Queue
pub mod Engine
pub mod Accounts
pub mod Bundle
pub mod Wake
pub mod Examples
