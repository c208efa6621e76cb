-- ===== src/PrivateMount.antt =====
-- The plugin that mounts file systems privately for a job or a task (private-mount.c).
pub mod System
pub mod Plugin
pub mod Mounts
pub mod Allowed
mod Tests
