-- ===== src/Limit.antt =====
-- The rate-limit gates (internal/limit/limit.go): one per provider instance.
pub mod Gate
pub mod GateLaws
pub mod Gates
pub mod GatesLaws
