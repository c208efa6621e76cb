-- ===== src/Cpuset/Nodemap.antt =====
-- The NUMA aware allocator of the cpuset plugin (cpuset/nodemap.c).
pub mod State
pub mod Node
pub mod Sort
pub mod Allocate
pub mod Invariant
pub mod OneNode
pub mod WholeNode
pub mod Walk
pub mod Order
pub mod Policies
pub mod Fits
pub mod WorstFit
pub mod Correct
pub mod Create
pub mod Built
