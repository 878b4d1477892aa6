-- ===== src/Leio/Descriptors.antt =====
-- generic/leio.c: the bindings on file descriptors.
use e2factory.Common.{
  ℕ, Bool, false, Option, none, some, [], Bytes, codes, ℤ, pos, negsuc, negative, nonzero, not,
  to_size, take, if◌then◌else◌,
}
use e2factory.Lua.{
  Value, boolean, number, string, lightuserdata, userdata, table, Api, M, ◌>>=◌, ◌>>◌, pure, return,
  when, push, at_index, sys, look, lua_l_error, lua_l_checkinteger, return_true, or_argerror,
}
use e2factory.Leio.Libc.{Libc, World, libc_call}
use e2factory.Leio.ReadBuffer.{get_read_buf}
use e2factory.Leio.Streams.{fail_errno}

module _ (api : Api) (c : Libc) where
  -- The same with the error number as a third result.
  abbrev fail_errno_3 : M (World c) (Unit {0})
  fail_errno_3 = do
    e ← look (λ w. c.errno w.libc)
    push (boolean false)
    push (string (c.strerror e))
    push (number (pos e))
    return 3

  unfoldable pub eio_close : M (World c) (Unit {0})
  eio_close = do
    fd ← lua_l_checkinteger api 1
    rc ← sys (libc_call c (c.close fd))
    when (negative rc) (fail_errno api c)
    return_true

  unfoldable pub eio_write : M (World c) (Unit {0})
  eio_write = do
    fd ← lua_l_checkinteger api 1
    v ← at_index 2
    wsz ← sys (libc_call c (c.write fd (bytes_of (api.tolstring v))))
    when (negative wsz) fail_errno_3
    push (number wsz)
    return 1
    where
      -- `lua_tolstring` sets the size to 0 where it answers NULL.
      bytes_of : Option Bytes → Bytes
      bytes_of none = []
      bytes_of (some b) = b

  unfoldable pub eio_read : M (World c) (Unit {0})
  eio_read = do
    fd ← lua_l_checkinteger api 1
    n ← lua_l_checkinteger api 2
    let sz = to_size n
    b ← sys (get_read_buf c sz)
    buf ← elim b [ none ↦ fail_errno api c | some p ↦ pure p ]
    r ← sys (libc_call c (c.read fd buf sz))
    when (negative r.0) fail_errno_3
    push (string (take (to_size r.0) r.1))
    return 1

  unfoldable pub eio_pipe : M (World c) (Unit {0})
  eio_pipe = do
    r ← sys (libc_call c c.pipe)
    when (nonzero r.0) (fail_errno api c)
    push (number r.1)
    push (number r.2)
    return 2

  unfoldable pub eio_dup : M (World c) (Unit {0})
  eio_dup = do
    oldfd ← lua_l_checkinteger api 1
    rc ← sys (libc_call c (c.dup oldfd))
    when (negative rc) (fail_errno api c)
    push (number rc)
    return 1

  unfoldable pub eio_dup2 : M (World c) (Unit {0})
  eio_dup2 = do
    oldfd ← lua_l_checkinteger api 1
    newfd ← lua_l_checkinteger api 2
    rc ← sys (libc_call c (c.dup2 oldfd newfd))
    when (negative rc) (fail_errno api c)
    return_true

  abbrev closed_or_fd : Option ℕ → M (World c) ℤ
  closed_or_fd none = lua_l_error (codes "eio_cloexec: closed lua filehandle")
  closed_or_fd (some f) = look (λ w. c.fileno f w.libc)

  abbrev handle_fd : Value → M (World c) ℤ
  handle_fd (lightuserdata f) = look (λ w. c.fileno f w.libc)
  handle_fd _ = lua_l_error (api.argerror 1 (codes "not a eio table"))

  -- The descriptor of an eio table or of a file of Lua, and -1 for anything else.
  abbrev file_fd : Option Value → M (World c) ℤ
  file_fd (some (table fields)) = handle_fd (api.handle_of fields)
  file_fd (some (lightuserdata p)) = do
    f ← or_argerror api 1 "FILE* expected" (api.checkfilehandle (some (lightuserdata p)))
    closed_or_fd f
  file_fd (some (userdata p)) = do
    f ← or_argerror api 1 "FILE* expected" (api.checkfilehandle (some (userdata p)))
    closed_or_fd f
  file_fd _ = pure (negsuc 0)

  abbrev cloexec_flag : Option Value → M (World c) Bool
  cloexec_flag (some (boolean b)) = pure b
  cloexec_flag _ = lua_l_error (api.argerror 2 (codes "boolean required"))

  unfoldable pub eio_cloexec : M (World c) (Unit {0})
  eio_cloexec = do
    v ← at_index 1
    fd ← if api.isnumber v then lua_l_checkinteger api 1 else file_fd v
    when (negative fd) (lua_l_error (api.argerror 1 (codes "fd/eio/io file required")))
    b ← at_index 2
    cloexec ← cloexec_flag b
    rc ← sys (libc_call c (c.setfd fd cloexec))
    push (boolean (not (nonzero rc)))
    return 1
