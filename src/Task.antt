-- ===== src/Task.antt =====
-- The queued job (internal/task): its record, the checks it must pass and the ids made for it.
pub mod Model
pub mod Slug
pub mod SlugLaws
pub mod Checks
pub mod WellFormed
pub mod Ids
pub mod IdsLaws
