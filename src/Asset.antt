-- ===== src/Asset.antt =====
-- The download of media files: src/api/services/MediaAssetService.ts and src/ports/Storage.ts.
pub mod Storage
pub mod Download
pub mod Tried
pub mod Settled
