-- ===== src/Workflow.antt =====
-- Jobs that wait for others (internal/workflow/workflow.go).
pub mod Dependencies
pub mod Laws
