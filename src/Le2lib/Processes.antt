-- ===== src/Le2lib/Processes.antt =====
-- generic/le2lib.c: the bindings on processes, the environment and terminals.
pub mod Arguments
use e2factory.Common.{
  ℕ, ◌+◌, ◌*◌, not, Option, none, some, List, [], ◌∷◌, ◌++◌, map, Bytes, codes, ℤ, pos, negative,
  nonzero, take, replicate, ◌==◌, if◌then◌else◌,
}
use e2factory.Lua.{
  Value, number, string, table, Api, Flow, replaced, M, ◌>>=◌, ◌>>◌, pure, return, when, push,
  at_index, sys, look, lua_l_error, lua_l_checkstring, lua_l_checkinteger, second_flag, fail_with,
  return_true,
}
use e2factory.Le2lib.Posix.{Posix, fail_errno, fail_errno_3, strerror_errno}

-- The signals that the library names, with their numbers on Linux.
abbrev pub sigint : ℕ
sigint = 2

-- The strings of a sequence, padded with nils to a length; what is no string becomes NULL.
unfoldable pub argv_of : Api → ℕ → List Value → List (Option Bytes)
argv_of api argc vs =
    take argc (map (λ v. api.tolstring (some v)) vs ++ replicate argc none) ++ (none ∷ [])

module _ (api : Api) (p : Posix) where
  unfoldable pub lua_fork : M p.State (Unit {0})
  lua_fork = do rc ← sys p.fork; when (negative rc) (fail_errno p); push (number rc); return 1

  unfoldable pub do_forkpty : M p.State (Unit {0})
  do_forkpty = do
    r ← sys p.forkpty
    when (negative r.0) (fail_errno p)
    push (number r.0)
    when (not (nonzero r.0)) (return 1)
    push (number r.1)
    push (string r.2)
    return 3

  unfoldable pub do_getpid : M p.State (Unit {0})
  do_getpid = do pid ← look p.getpid; push (number pid); return 1

  unfoldable pub do_kill : M p.State (Unit {0})
  do_kill = do
    pid ← lua_l_checkinteger api 1
    sig ← lua_l_checkinteger api 2
    rc ← sys (p.kill pid sig)
    when (negative rc) (fail_errno p)
    return_true

  -- What `waitpid` reported of the child `rc`.
  abbrev wait_result : ℤ → ℕ → M p.State (Unit {0})
  wait_result rc status = do
    when (p.wifexited status)
        (do push (number (pos (p.wexitstatus status))); push (number rc); return 2)
    when (p.wifsignaled status) (do
      push (number (pos (p.wtermsig status + 128)))
      push (number rc)
      push (number (pos (p.wtermsig status)))
      return 3)
    lua_l_error (codes "process_wait: unhandled case, please report")

  unfoldable pub process_wait : M p.State (Unit {0})
  process_wait = do
    pid ← lua_l_checkinteger api 1
    wnohang ← second_flag api
    r ← sys (p.waitpid pid wnohang)
    when (negative r.0) (fail_errno_3 p)
    when (not (nonzero r.0)) (push (number (pos 255)) >> (push (number r.0) >> return 2))
    wait_result r.0 r.1

  -- `execvp` comes back only when it failed.
  abbrev exec : Bytes → List (Option Bytes) → M p.State (Unit {0})
  exec file argv s =
      let r = p.execvp file argv s.world in
      (if r.0 then replaced else Flow.next tt, record s { world = r.1 })

  unfoldable pub do_execvp : M p.State (Unit {0})
  do_execvp = do
    v ← at_index 1
    file ← elim (api.tolstring v) [
      | none ↦ fail_with (codes "do_execvp: missing/wrong file argument")
      | some f ↦ pure f
    ]
    t ← at_index 2
    argc ← objlen_of t
    when (argc == 0) (fail_with (codes "do_execvp: 1+ argv arguments required"))
    good ← sys (p.malloc_ok ((argc + 1) * 8))
    e ← look (strerror_errno p)
    when (not good) (fail_with (codes "do_execvp: malloc failed: " ++ e))
    exec file (argv_of api argc (values_of (api.sequence t)))
    fail_errno p
    where
      values_of : Option (List Value) → List Value
      values_of none = []
      values_of (some vs) = vs

      objlen_of : Option Value → M p.State ℕ
      objlen_of (some (table fields)) = pure (api.objlen (table fields))
      objlen_of _ = fail_with (codes "do_execvp: missing/wrong argv argument")

  unfoldable pub do_setenv : M p.State (Unit {0})
  do_setenv = do
    var ← lua_l_checkstring api 1
    val ← lua_l_checkstring api 2
    v ← at_index 3
    rc ← sys (p.setenv var val (api.toboolean v))
    when (nonzero rc) (fail_errno p)
    return_true

  unfoldable pub do_uname_machine : M p.State (Unit {0})
  do_uname_machine = do
    r ← sys p.uname
    when (nonzero r.0) (fail_errno p)
    push (string r.1)
    return 1

  unfoldable pub unblock_fd : M p.State (Unit {0})
  unblock_fd = do fd ← lua_l_checkinteger api 1; sys (λ s. (tt {0}, p.set_nonblock fd s)); return 0

  unfoldable pub ioctl_tiocsig_sigint : M p.State (Unit {0})
  ioctl_tiocsig_sigint = do
    fd ← lua_l_checkinteger api 1
    rc ← sys (p.tiocsig fd sigint)
    e ← look (strerror_errno p)
    when (negative rc) (lua_l_error (codes "ioctl(TIOCSIG, SIGINT) failed: " ++ e))
    return 0
