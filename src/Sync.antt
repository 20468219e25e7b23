-- ===== src/Sync.antt =====
-- The ingestion of one hashtag: src/api/services/HashtagSyncService.ts.
pub mod State
pub mod Items
pub mod Pages
pub mod Service
pub mod Frame
pub mod Locks
pub mod Downloads
pub mod Keys
pub mod Accounting
pub mod Ending
pub mod Fuel
