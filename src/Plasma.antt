-- ===== src/Plasma.antt =====
-- The Plasma object store: src/plasma.
pub mod Types
pub mod Malloc
pub mod Eviction
pub mod Store
pub mod Manager
pub mod Tests
