-- ===== src/Overcommit.antt =====
-- The overcommit-memory plugin (overcommit-memory/).
pub mod Shared
pub mod Plugin
pub mod Table
pub mod Users
pub mod Lifecycle
pub mod Init
mod Tests
