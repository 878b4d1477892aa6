-- ===== src/Le2lib.antt =====
-- generic/le2lib.c, the Lua bindings of system calls. `Posix` is what they call; the bindings are
-- grouped into `Files`, `Directories`, `Processes`, `Polling` and `Signals`.
pub mod Posix
pub mod Files
pub mod Directories
pub mod Processes
pub mod Polling
pub mod Signals
pub mod Registry
