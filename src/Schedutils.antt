-- ===== src/Schedutils.antt =====
-- The text forms of CPU sets (lua/lua-schedutils/cpuset-str.c).
pub mod Cstr
pub mod Pieces
pub mod Cover
pub mod Entries
pub mod RoundTrip
pub mod Stride
pub mod Ops
pub mod Algebra
pub mod Listing
mod Tests
