-- ===== src/Store.antt =====
-- The database of src/database and src/api/models, and the repositories of src/api/repositories.
pub mod Tables
pub mod Rows
pub mod Media
pub mod Posts
pub mod History
pub mod Assets
pub mod Stale
pub mod Runs
pub mod Hashtags
pub mod Tracking
pub mod Reads
pub mod Clusters
