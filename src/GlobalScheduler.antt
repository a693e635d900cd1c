-- ===== src/GlobalScheduler.antt =====
-- The global scheduler: src/global_scheduler.
pub mod State
pub mod Algorithm
pub mod Server
pub mod Choice
pub mod Assignment
pub mod Registry
pub mod Heartbeats
pub mod Timeouts
pub mod Invariant
pub mod Pending
pub mod RoundRobin
pub mod Sizes
pub mod Addresses
pub mod Tests
