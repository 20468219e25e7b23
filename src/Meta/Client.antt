-- ===== src/Meta/Client.antt =====
-- The class MetaGraphClient of src/lib/meta/MetaGraphClient.ts.
pub mod Net
pub mod Request
pub mod Retries
pub mod Terminal
pub mod Paginate
pub mod Walk
pub mod Cap
