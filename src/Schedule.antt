-- ===== src/Schedule.antt =====
-- When a task is due, and which due tasks may start (internal/schedule/schedule.go).
pub mod Due
pub mod DueLaws
pub mod Select
pub mod SelectLaws
