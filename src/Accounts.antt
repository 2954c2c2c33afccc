-- ===== src/Accounts.antt =====
-- The configured providers and pools, as internal/app/provider.go and internal/app/pool.go edit them.
pub mod Validate
pub mod Lists
pub mod Edit
pub mod Saved
pub mod Links
pub mod Changes
pub mod Removal
pub mod Members
pub mod Pools
pub mod Sequence
pub mod Targets
