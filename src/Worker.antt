-- ===== src/Worker.antt =====
-- The class JobRunner of src/worker/JobRunner.ts: how one message is processed, and the polling
-- loop with its backpressure.
pub mod Process
pub mod Settling
pub mod Polling
pub mod Capacity
