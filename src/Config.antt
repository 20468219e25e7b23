-- ===== src/Config.antt =====
-- The configuration of a process: src/lib/env/index.ts, and the choice of the drivers in
-- src/adapters/index.ts.
pub mod Env
pub mod Loading
pub mod Adapters
pub mod Wiring
