-- ===== src/Meta.antt =====
-- The client of the Meta Graph API (src/lib/meta), and its error classes (src/api/errors).
pub mod RateLimit
pub mod Errors
pub mod Schema
pub mod Payload
pub mod Timestamp
pub mod Client
