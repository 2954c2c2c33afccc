-- ===== src/Engine.antt =====
-- The engine of internal/engine/engine.go.
pub mod Output
pub mod BackUp
pub mod OutputLaws
pub mod State
pub mod Start
pub mod Assign
pub mod Announce
pub mod Tick
pub mod TickLaws
pub mod Ready
pub mod Moment
pub mod Active
pub mod PassLaws
pub mod Starts
pub mod TickStarts
pub mod Pass
pub mod AssignLaws
pub mod Finish
pub mod Steps
pub mod Lifecycle
pub mod LifecycleLaws
pub mod Fresh
pub mod Once
pub mod OnceStarts
pub mod OnceSteps
pub mod OnceOnly
pub mod Progress
pub mod TickProgress
pub mod Liveness
pub mod Exclusion
pub mod FinishLaws
