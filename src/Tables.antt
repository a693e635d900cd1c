-- ===== src/Tables.antt =====
-- Commands to the database that are retried: src/common/state.
pub mod State
pub mod Lives
pub mod Destruction
pub mod Retries
pub mod Tests
