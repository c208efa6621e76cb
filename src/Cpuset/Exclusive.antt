-- ===== src/Cpuset/Exclusive.antt =====
-- Jobs do not share CPUs (cpuset/create.c, cpuset/util.c).
pub mod Used
pub mod Apart
pub mod Modify
pub mod Users
pub mod OneUser
pub mod Jobs
pub mod Returns
mod Tests
