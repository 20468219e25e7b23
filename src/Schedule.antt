-- ===== src/Schedule.antt =====
-- What runs on a schedule: src/adapters/index.ts and the dispatcher of src/api/consumers/index.ts.
pub mod Cron
pub mod Dispatch
pub mod Due
pub mod Bridge
pub mod Ensured
pub mod NodeCron
