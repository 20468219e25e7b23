-- ===== src/Consumers.antt =====
-- The handlers that the worker dispatches on: src/api/consumers/index.ts.
pub mod Handlers
pub mod Verdicts
