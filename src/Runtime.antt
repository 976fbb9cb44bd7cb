-- ===== src/Runtime.antt =====
-- src/runtime: the pool of worker threads.
pub mod Lanes
pub mod Desk
pub mod Decisions
pub mod Deadlines
