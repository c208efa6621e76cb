-- ===== src/Priority.antt =====
-- The plugins that set the priority and the scheduling policy of tasks (renice.c, setsched.c).
pub mod Renice
pub mod Bounds
pub mod Setsched
pub mod Choice
mod Tests
