-- ===== src/PreserveEnv.antt =====
-- The plugin that takes the SLURM variables of a shell to its tasks (preserve-env.c).
pub mod Environment
pub mod Plugin
pub mod Entries
pub mod RoundTrip
mod Tests
