-- ===== src/LocalScheduler.antt =====
-- The local scheduler: src/local_scheduler.
pub mod State
pub mod Workers
pub mod Queues
pub mod Objects
pub mod Actors
pub mod Clients
pub mod Server
pub mod Shutdown
pub mod Accounts
pub mod Pools
pub mod Readiness
pub mod Waiting
pub mod Registration
pub mod Loops
pub mod Dropping
pub mod Invariant
pub mod Dispatch
pub mod ActorOrder
pub mod Drivers
pub mod Dependencies
pub mod Tests
