-- ===== src/Queue.antt =====
-- The queue port (src/ports/Queue.ts) and its in-memory driver (src/adapters/local/InMemoryQueue.ts).
pub mod Port
pub mod Memory
pub mod Map
pub mod Trace
pub mod Budget
pub mod Invariant
pub mod Methods
pub mod Ceiling
pub mod Conservation
pub mod Delivery
pub mod Retention
