-- ===== src/Commands.antt =====
-- The command-line programs of commands.
pub mod Drain
pub mod Draining
pub mod Replay
pub mod Rows
pub mod Replayed
pub mod Replaying
