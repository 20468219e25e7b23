-- ===== src/Disk.antt =====
-- The disk storage of src/adapters/local/LocalDiskStorage.ts.
pub mod Paths
pub mod Inside
pub mod Driver
pub mod Atomic
