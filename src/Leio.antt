-- ===== src/Leio.antt =====
-- generic/leio.c, the Lua bindings of stdio and of file descriptors. `Libc` is what they call,
-- `ReadBuffer` the static buffer, `Streams` the bindings on FILE and `Descriptors` those on ints.
pub mod Libc
pub mod ReadBuffer
pub mod Streams
pub mod Descriptors
pub mod Registry
