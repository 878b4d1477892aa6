-- ===== src/Le2lib/Posix.antt =====
-- What generic/le2lib.c calls: libc and the kernel, as operations on an unknown state. `errno`
-- reads the error number of the last failed call; results are C's, negative for most failures.
use e2factory.Common.{ℕ, Bool, false, Option, List, Bytes, ℤ, pos}
use e2factory.Lua.{boolean, number, string, M, ◌>>=◌, ◌>>◌, return, push, look, fail_with}

-- `struct stat`, as far as the binding reads it. The Lua numbers are doubles; these are exact.
pub record Stat : Type 0 where
  pub dev : ℕ
  pub ino : ℕ
  pub mode : ℕ
  pub nlink : ℕ
  pub uid : ℕ
  pub gid : ℕ
  pub rdev : ℕ
  pub size : ℕ
  pub atime : ℕ
  pub atime_nsec : ℕ
  pub mtime : ℕ
  pub mtime_nsec : ℕ
  pub ctime : ℕ
  pub ctime_nsec : ℕ
  pub blksize : ℕ
  pub blocks : ℕ

-- A directory stream: its address, the names that the calls of `readdir` deliver, and whether
-- NULL then means the end or, with an error number, a failure.
pub record Dir : Type 0 where
  pub handle : ℕ
  pub names : List Bytes
  pub failure : Option ℕ

-- The disposition of a signal.
pub data Handler : Type 0 where
  dfl ign : Handler
  -- `signal_handler` of this library.
  catch : Handler
  -- A handler of other code.
  other : ℕ → Handler

-- `struct sigaction`: the handler, `sa_flags` and the signals blocked while it runs.
pub record Action : Type 0 where
  pub handler : Handler
  pub flags : ℕ
  pub mask : List ℕ

pub record Posix : Type 1 where
  pub State : Type 0
  pub errno : State → ℕ
  pub strerror : ℕ → Bytes
  pub strsignal : ℕ → Bytes
  pub fork : State → ℤ × State
  -- The child's pid, the master's descriptor and the terminal's name.
  pub forkpty : State → (ℤ × ℤ × Bytes) × State
  pub getpid : State → ℤ
  pub getcwd : ℕ → State → Option Bytes × State
  pub lstat : Bytes → State → (ℤ × Stat) × State
  pub stat : Bytes → State → (ℤ × Stat) × State
  pub opendir : Bytes → State → Option Dir × State
  pub dirfd : Dir → State → ℤ × State
  pub closedir : Dir → State → State
  -- `access`, for reading or, with the flag, for executing.
  pub access : Bytes → Bool → State → ℤ × State
  pub chdir : Bytes → State → ℤ × State
  pub symlink : Bytes → Bytes → State → ℤ × State
  pub link : Bytes → Bytes → State → ℤ × State
  pub rename : Bytes → Bytes → State → ℤ × State
  pub unlink : Bytes → State → ℤ × State
  pub rmdir : Bytes → State → ℤ × State
  pub mkdir : Bytes → ℤ → State → ℤ × State
  pub chmod : Bytes → ℤ → State → ℤ × State
  pub mkdtemp : Bytes → State → Option Bytes × State
  -- The descriptor, and the template as it was filled in.
  pub mkstemp : Bytes → State → (ℤ × Bytes) × State
  pub setenv : Bytes → Bytes → Bool → State → ℤ × State
  pub umask : ℤ → State → ℤ × State
  -- The result and `uts.machine`.
  pub uname : State → (ℤ × Bytes) × State
  pub kill : ℤ → ℤ → State → ℤ × State
  -- The result and the status word; the flag is WNOHANG.
  pub waitpid : ℤ → Bool → State → (ℤ × ℕ) × State
  pub wifexited : ℕ → Bool
  pub wexitstatus : ℕ → ℕ
  pub wifsignaled : ℕ → Bool
  pub wtermsig : ℕ → ℕ
  -- `argv` as the array is, its NULL included; true when the process was replaced.
  pub execvp : Bytes → List (Option Bytes) → State → Bool × State
  pub malloc_ok : ℕ → State → Bool × State
  -- The result and the `revents` of each descriptor. All are asked for POLLIN and POLLOUT.
  pub poll : List ℤ → ℤ → State → (ℤ × List ℕ) × State
  pub set_nonblock : ℤ → State → State
  pub close : ℤ → State → ℤ × State
  pub tiocsig : ℤ → ℕ → State → ℤ × State
  -- `prctl(PR_SET_PDEATHSIG, signal)`
  pub set_pdeathsig : ℕ → State → ℤ × State
  pub get_action : ℕ → State → (ℤ × Action) × State
  pub set_action : ℕ → Action → State → ℤ × State
  -- `sigprocmask` with SIG_BLOCK or, with false, SIG_UNBLOCK.
  pub procmask : Bool → List ℕ → State → ℤ × State

module _ (p : Posix) where
  abbrev pub strerror_errno : p.State → Bytes
  strerror_errno s = p.strerror (p.errno s)

  -- `lua_pushboolean(lua, 0); lua_pushstring(lua, strerror(errno)); return 2;`
  abbrev pub fail_errno : {A : Type 0} → M p.State A
  fail_errno = do e ← look strerror_errno; fail_with e

  -- The same with the error number as a third result.
  abbrev pub fail_errno_3 : {A : Type 0} → M p.State A
  fail_errno_3 = do
    e ← look p.errno
    push (boolean false)
    push (string (p.strerror e))
    push (number (pos e))
    return 3
