-- ===== src/Wake.antt =====
-- Wake planning, of internal/wake/wake.go.
pub mod Next
pub mod Scheduler
