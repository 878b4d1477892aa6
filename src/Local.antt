-- ===== src/Local.antt =====
-- local/: the parts of the local tools, written in Lua, that the identity of a build and its order
-- stand on.
pub mod Build
pub mod Depends
pub mod Digest
pub mod Environment
pub mod Hash
pub mod Result
pub mod StringList
pub mod Tables
