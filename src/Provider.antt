-- ===== src/Provider.antt =====
-- Providers, pools and how a selection becomes a run (internal/provider).
pub mod Model
pub mod Set
pub mod Windows
pub mod Score
pub mod Rank
pub mod RankLaws
pub mod BackfillLaws
pub mod Fallback
pub mod FallbackLaws
pub mod Selection
pub mod Resolve
pub mod ResolveLaws
pub mod Collector
pub mod CollectorLaws
pub mod Health
pub mod HealthLaws
pub mod Monitor
pub mod MonitorLaws
