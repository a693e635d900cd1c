-- ===== src/Plasma/Manager.antt =====
-- The Plasma manager process: src/plasma/plasma_manager.cc. The children hold the state and one group
-- of operations each; Waiting and Fetching hold proofs.
pub mod State
pub mod Waits
pub mod Transfers
pub mod Fetches
pub mod Server
pub mod Waiting
mod Connections
pub mod Fetching
pub mod Arrivals
pub mod Invariant
pub mod Faults
pub mod Tests
