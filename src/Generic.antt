-- ===== src/Generic.antt =====
-- generic/: parts of the Lua library that all tools share.
pub mod Modes
pub mod Paths
pub mod Quoting
pub mod Lock
