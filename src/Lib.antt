-- ===== src/Lib.antt =====
-- The C programs and libraries of e2factory: the setuid helper that builds and removes
-- chroots, the wrapper for 32-bit builds, and the three libraries on which the Lua part of
-- e2factory stands; and of the Lua part what decides which results are built, in which order,
-- and under which identity. The paths below are those of the repository.
--
-- Su: global/e2-su-2.2.c. `Su.Run` holds the calls of libc as a trace of events with the early
--   `exit`, and the helpers `perr`, `setuid_root` and `assert_chroot_environment`;
--   `Su.Commands` one function per command (chroot_2_2 to remove_chroot_2_3); `Su.Main` the
--   argument checks and the choice of the command. `Su.Job` says what a command line asks for
--   (the marker file, the tool, the directory), `Su.Order` is a monitor of the trace for such a
--   job, `Su.Order.Main` its proof for each command, `Su.Outcomes` whole traces. The host (the tool
--   paths, `basename`, and the answer of every system call) is a parameter; a file is readable
--   or not for the whole run. PATH_MAX is 4096. `print_arg` does nothing without DEBUG.
-- Linux32: local/linux32.c, `main` as the list of its calls, and a reader of that list.
-- Lua: the stack, the returns and the errors of a Lua C function, as generic/*.c use them.
--   What Lua makes of an argument (`luaL_checkstring`, `lua_tointeger`, …) is the parameter
--   `Api`. Numbers are integers. `Lua.Reports` says how a failure is reported, `Lua.Announced`
--   that a function returns values that it has pushed.
-- Leio: generic/leio.c, each `eio_…` function under its name: on FILE handles in
--   `Leio.Streams`, on descriptors in `Leio.Descriptors`, `get_read_buf` in `Leio.ReadBuffer`,
--   the table `lib` in `Leio.Registry`. libc is the parameter `Libc`, operations on an unknown
--   state; so is what Lua's stack holds above the arguments, which `eio_fflush` reads.
-- Le2lib: generic/le2lib.c, each function under its name: `Le2lib.Files`,
--   `Le2lib.Directories`, `Le2lib.Processes`, `Le2lib.Polling`, `Le2lib.Signals` (`Shutdown`
--   the order of signals and hook points), and the table `lib` in `Le2lib.Registry`. The
--   kernel and libc are the parameter `Posix`; a directory is the list of its names, read
--   once. Signals arrive between the steps of the program, and the hook that the handler sets
--   runs at the steps that the interpreter chooses.
-- Sha: generic/sha1.c, generic/sha2.c and generic/lsha.c. `Sha.Sha1` holds the transform and
--   SHA1Init, `Sha.Sha1.Update` SHA1Update, `Sha.Sha1.Final` SHA1Final, `Sha.Sha1.Fips` the
--   compression function of FIPS 180. `Sha.Sha2` holds what SHA256_Update and SHA512_Update,
--   SHA256_Final and SHA512_Last have in common, over a record `Machine` of what differs
--   (`Refinement` and `Blocks` are about updates, `Padding` and `Last` about the end, `Digest`
--   about whole runs); `Sha.Sha2.Rounds` the two transforms in the same way. `Sha.Sha256` and
--   `Sha.Sha512` (also SHA-384) put in their words, lengths and counters, and their `Stream`
--   has the functions of the library; `Sha.Sha2.Unrolled` holds the transforms with
--   SHA2_UNROLL_TRANSFORM, and `Sha.Sha2.Rounds.Schedule` the schedule of FIPS 180.
--   `Sha.ByteOrder` holds REVERSE32 and REVERSE64, `Sha.Lsha` and `Sha.Lsha.Long` the
--   functions for Lua; `Sha.Absorb` is the streaming of whole blocks that the code is compared
--   with. A `u_int32_t` is a natural number below 2 ^ 32 with its wrap-around written out; the
--   machine is little-endian (the branches for the other byte order are left out),
--   SHA1HANDSOFF is defined and, outside `Sha.Sha2.Unrolled`, SHA2_UNROLL_TRANSFORM is not.
--   Contexts and buffers for digests are not null.
-- Local: the Lua modules of local/. `Local.StringList` is sl.lua (`Commands` any sequence of its
--   operations), `Local.Hash` hash.lua over `Sha.Lsha`, `Local.Environment` environment.lua
--   over `Local.Hash`, `Local.Result` the merged environment of result.lua, `Local.Digest`
--   digest.lua (parser, check and writer of checksum files, over the "%s" of Lua's
--   `string.format` as a parameter),
--   `Local.Build` the build steps and build sets of e2build.lua, `Local.Depends` dlist_recursive
--   and dsort of e2tool.lua with the names of results (`Spec` says what an order is). A table
--   of Lua is a list of pairs (`Local.Tables`) or a function; strings are lists of bytes, in
--   the order of the C locale; arguments have the types that the code asserts. What the method
--   `depends_list` of each result returns is an argument.
-- Generic: the Lua modules of generic/. `Generic.Paths` and `Generic.Quoting` are join,
--   dirname, basename and shquote of e2lib.lua, `Generic.Modes` is parse_mode, with Lua's
--   `tonumber` as a parameter; `Generic.Lock` is lock.lua, and what its calls of e2lib.mkdir
--   and e2lib.rmdir do is the parameter `Dirs`, either of which may fail.
-- Common: decisions, lists, bytes, C integers and bit masks. Tests: test vectors, and the
--   theorems at concrete inputs.
--
-- Bounds and fuel: the loop over whole blocks of an update has one round more than the input
-- has blocks (SHA-1) or bytes (SHA-2), and the loop that pads has 65 rounds, one more than the
-- bytes of a block; that both are enough is part of the theorems on `update` and `final`.
-- `visit` of dlist_recursive has one level more than there are results, which is enough since
-- the results under way differ; the loop of `cleanup` has a round for each lock.
-- `atoi` does not wrap. A write past the end of a buffer is the outcome `none` or `fault`.
--
-- Not modelled: failures of `realloc` in `poll_fd`, which the code does not test; doubles that
-- are no integers, so `stat` is exact; the `luaopen_…` functions, which only register the
-- tables; the rest of the Lua programs, which runs tools, transfers files and reads options and
-- configurations: its results are those of commands outside of the repository; the bundled Lua, LuaFileSystem, LDoc and Penlight.
pub mod Common
pub mod Generic
pub mod Le2lib
pub mod Leio
pub mod Linux32
pub mod Local
pub mod Lua
pub mod Sha
pub mod Su
pub mod Tests
