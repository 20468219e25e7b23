-- ===== src/Tests.antt =====
-- Runs of the models at concrete inputs.
mod Queues
mod Requests
mod Tables
mod Syncing
mod Captions
mod Reading
mod Wires
mod Commands
mod Replays
mod Clouds
mod Serving
mod Disks
mod Settings
