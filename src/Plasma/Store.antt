-- ===== src/Plasma/Store.antt =====
-- The Plasma store process: src/plasma/plasma_store.cc. The children hold the state and one group of
-- operations each.
pub mod State
pub mod Notify
pub mod Objects
pub mod Requests
pub mod Messages
pub mod Events
pub mod Invariant
pub mod Termination
pub mod Evicting
pub mod Completion
pub mod Gets
pub mod Answers
