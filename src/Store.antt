-- ===== src/Store.antt =====
-- The records of internal/store: runs, the scheduling state and the lists kept in JSON files.
pub mod Run
pub mod State
pub mod StateLaws
pub mod Config
pub mod ConfigLaws
pub mod History
pub mod HistoryLaws
pub mod Outbox
pub mod OutboxLaws
pub mod Saving
pub mod SavingLaws
