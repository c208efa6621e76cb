-- ===== src/Cpuset.antt =====
-- The cpuset plugin (cpuset/).
pub mod Bitmask
pub mod Conf
pub mod Nodemap
pub mod Instance
pub mod Machines
pub mod Directories
pub mod Tree
pub mod Update
pub mod Create
pub mod Exclusive
mod Tests
