-- ===== src/Affinity.antt =====
-- The auto-affinity plugin (auto-affinity.c).
pub mod Cpus
pub mod Masks
pub mod Available
pub mod Place
pub mod Apart
pub mod Disjoint
pub mod Plugin
pub mod Decision
mod Tests
pub mod Cstr
pub mod Ranges
pub mod Lists
