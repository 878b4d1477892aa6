-- ===== src/Tests/Bindings.antt =====
-- A small Lua, a small libc and a small system, for the theorems on generic/leio.c and
-- generic/le2lib.c.
use e2factory.Common.{
  ℕ, Bool, true, false, Option, none, some, List, [], ◌∷◌, Bytes, codes, length, ℤ, pos, negsuc,
}
use e2factory.Lua.{Value, nil, boolean, number, string, lightuserdata, userdata, Api}
use e2factory.Leio.Libc.{Libc}
use e2factory.Leio.Libc
use e2factory.Le2lib.Posix.{Posix, Stat, Action, dfl}
use e2factory.Le2lib.Signals.{Statics, World}

abbrev check_string : Option Value → Option Bytes
check_string (some (string text)) = some text
check_string _ = none

abbrev check_integer : Option Value → Option ℤ
check_integer (some (number n)) = some n
check_integer _ = none

abbrev to_integer : Option Value → ℤ
to_integer (some (number n)) = n
to_integer _ = pos 0

abbrev to_boolean : Option Value → Bool
to_boolean none = false
to_boolean (some nil) = false
to_boolean (some (boolean b)) = b
to_boolean _ = true

abbrev to_userdata : Option Value → Option ℕ
to_userdata (some (lightuserdata p)) = some p
to_userdata (some (userdata p)) = some p
to_userdata _ = none

-- A Lua without coercions, whose tables are empty.
abbrev pub lua : Api
lua = record {
  checkstring = check_string;
  checkinteger = check_integer;
  tolstring = check_string;
  tointeger = to_integer;
  toboolean = to_boolean;
  touserdata = to_userdata;
  argerror = λ i msg. msg;
  argerror_top = λ msg. msg;
  format_int = λ n. codes "0";
  sequence = λ v. some [];
  objlen = λ v. 0;
  isnumber = λ v. false;
  handle_of = λ t. nil;
  checkfilehandle = λ v. none;
}

-- A libc whose calls succeed; every `fread` reads the two bytes "ok".
abbrev pub libc : Libc
libc = record {
  State = ℕ;
  errno = λ s. s;
  strerror = λ e. codes "error";
  fopen = λ path mode s. (some 4096, s);
  fdopen = λ fd mode s. (some 4096, s);
  fclose = λ f s. (pos 0, s);
  fflush = λ f s. (pos 0, s);
  fileno = λ f s. pos 3;
  feof = λ f s. false;
  ferror = λ f s. false;
  fwrite = λ text f s. (length text, s);
  fread = λ buf sz f s. ((2, codes "ok"), s);
  fgetc = λ f s. (negsuc 0, s);
  setlinebuf = λ f s. s;
  setbuf_null = λ f s. s;
  setfd = λ fd on s. (pos 0, s);
  close = λ fd s. (pos 0, s);
  write = λ fd text s. (pos (length text), s);
  read = λ fd buf sz s. ((pos 2, codes "ok"), s);
  pipe = λ s. ((pos 0, pos 3, pos 4), s);
  dup = λ fd s. (pos 5, s);
  dup2 = λ old new s. (new, s);
  malloc = λ sz s. (some 8192, s);
  free = λ p s. s;
  above_top = λ s top. none;
}

abbrev pub streams : Libc.World libc
streams = record { libc = 0; buf = none; bufsz = 0 }

abbrev no_stat : Stat
no_stat = record {
  dev = 0;
  ino = 0;
  mode = 0;
  nlink = 0;
  uid = 0;
  gid = 0;
  rdev = 0;
  size = 0;
  atime = 0;
  atime_nsec = 0;
  mtime = 0;
  mtime_nsec = 0;
  ctime = 0;
  ctime_nsec = 0;
  blksize = 0;
  blocks = 0;
}

abbrev no_action : Action
no_action = record { handler = dfl; flags = 0; mask = [] }

-- A system whose state is the list of the closed descriptors, and whose calls succeed.
abbrev pub posix : Posix
posix = record {
  State = List ℤ;
  errno = λ s. 2;
  strerror = λ e. codes "error";
  strsignal = λ sig. codes "signal";
  fork = λ s. (pos 0, s);
  forkpty = λ s. ((pos 0, pos 3, codes "/dev/pts/1"), s);
  getpid = λ s. pos 1;
  getcwd = λ sz s. (some (codes "/"), s);
  lstat = λ path s. ((pos 0, no_stat), s);
  stat = λ path s. ((pos 0, no_stat), s);
  opendir = λ path s. (none, s);
  dirfd = λ d s. (pos 3, s);
  closedir = λ d s. s;
  access = λ path exec s. (pos 0, s);
  chdir = λ path s. (pos 0, s);
  symlink = λ a b s. (pos 0, s);
  link = λ a b s. (pos 0, s);
  rename = λ a b s. (pos 0, s);
  unlink = λ path s. (pos 0, s);
  rmdir = λ path s. (pos 0, s);
  mkdir = λ path mode s. (pos 0, s);
  chmod = λ path mode s. (pos 0, s);
  mkdtemp = λ path s. (some path, s);
  mkstemp = λ path s. ((pos 3, path), s);
  setenv = λ var val over s. (pos 0, s);
  umask = λ mode s. (pos 0, s);
  uname = λ s. ((pos 0, codes "x86_64"), s);
  kill = λ pid sig s. (pos 0, s);
  waitpid = λ pid hang s. ((pid, 0), s);
  wifexited = λ status. true;
  wexitstatus = λ status. 0;
  wifsignaled = λ status. false;
  wtermsig = λ status. 0;
  execvp = λ file argv s. (false, s);
  malloc_ok = λ sz s. (true, s);
  poll = λ fds tmo s. ((pos 0, []), s);
  set_nonblock = λ fd s. s;
  close = λ fd s. (pos 0, fd ∷ s);
  tiocsig = λ fd sig s. (pos 0, s);
  set_pdeathsig = λ sig s. (pos 0, s);
  get_action = λ sig s. ((pos 0, no_action), s);
  set_action = λ sig sa s. (pos 0, s);
  procmask = λ block set s. (pos 0, s);
}

-- The static variables after `signal_install`.
abbrev pub quiet : Statics
quiet = record {
  global_l = true;
  shutdown = false;
  received_first = 0;
  block_set = [];
  hook = false;
  exited = none;
}

abbrev pub system : World posix
system = record { posix = []; statics = quiet }
