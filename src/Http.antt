-- ===== src/Http.antt =====
-- The HTTP API of src/api: the request schema, the cursors, the controller of GET /hashtags and the
-- error handler.
pub mod Errors
pub mod Cursor
pub mod Request
pub mod Listing
pub mod Queries
pub mod Showing
pub mod Replies
pub mod Following
