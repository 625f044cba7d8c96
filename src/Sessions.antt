-- ===== src/Sessions.antt =====
-- The synchronization of session metadata (apps/session-metadata-sync).
pub mod Rows
pub mod Aggregate
pub mod Grouping
pub mod Records
pub mod Sync
pub mod Watermark
pub mod Windows
mod Tests
