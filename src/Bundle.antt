-- ===== src/Bundle.antt =====
-- The task files of internal/bundle/bundle.go.
pub mod Files
pub mod Format
pub mod RoundTrip
pub mod Import
pub mod Decimal
pub mod FreshId
pub mod ImportLaws
pub mod Export
