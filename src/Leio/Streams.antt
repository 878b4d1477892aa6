-- ===== src/Leio/Streams.antt =====
-- generic/leio.c: the bindings on FILE handles. A handle is a light userdata; `lua_touserdata`
-- answers NULL (`none`) for anything else.
pub mod Reading
use e2factory.Common.{
  ℕ, ◌+◌, ◌%◌, Bool, true, false, not, Option, none, some, List, [], ◌∷◌, Bytes, String, codes, ℤ,
  pos, negsuc, is_eof, ◌++◌, nonzero, to_size, take, length, ltb, ◌==◌, ◌&&◌, if◌then◌else◌,
}
use e2factory.Lua.{
  Value, boolean, number, string, lightuserdata, Api, M, ◌>>=◌, ◌>>◌, pure, return, when, push,
  gettop, at_index, sys, look, lua_l_error, lua_l_checkstring, lua_l_checkinteger, fail_with,
  return_true,
}
use e2factory.Leio.Libc.{Libc, World, libc_call, strerror_errno}
use e2factory.Leio.ReadBuffer.{get_read_buf}

module _ (api : Api) (c : Libc) where
  -- `lua_pushboolean(lua, 0); lua_pushstring(lua, strerror(errno)); return 2;`
  abbrev pub fail_errno : {A : Type 0} → M (World c) A
  fail_errno = do e ← look (strerror_errno c); fail_with e

  -- `f = lua_touserdata(lua, 1); if (f == NULL) { …; return 2; }`
  abbrev file_or_fail : String → M (World c) ℕ
  file_or_fail msg = do
    v ← at_index 1
    elim (api.touserdata v) [ none ↦ fail_with (codes msg) | some f ↦ pure f ]

  -- A NULL result becomes false and the message.
  abbrev or_fail_errno : {A : Type 0} → Option A → M (World c) A
  or_fail_errno none = fail_errno
  or_fail_errno (some a) = pure a

  unfoldable pub eio_fopen : M (World c) (Unit {0})
  eio_fopen = do
    file ← lua_l_checkstring api 1
    mode ← lua_l_checkstring api 2
    r ← sys (libc_call c (c.fopen file mode))
    f ← or_fail_errno r
    fd ← look (λ w. c.fileno f w.libc)
    rc ← sys (libc_call c (c.setfd fd true))
    e ← look (strerror_errno c)
    when (nonzero rc) (
        lua_l_error (
          codes "eio_fopen: fcntl("
          ++ (api.format_int fd ++ (codes "): " ++ (file ++ (codes ": " ++ e))))))
    push (lightuserdata f)
    return 1

  unfoldable pub eio_fclose : M (World c) (Unit {0})
  eio_fclose = do
    f ← file_or_fail "eio_fclose: one or more arguments of wrong type/missing"
    rc ← sys (libc_call c (c.fclose f))
    when (is_eof rc) fail_errno
    return_true

  -- The handle is read at index 0, which is no argument.
  unfoldable pub eio_fflush : M (World c) (Unit {0})
  eio_fflush = do
    top ← gettop
    slot ← look (λ w. c.above_top w.libc top)
    rc ← sys (libc_call c (c.fflush (api.touserdata slot)))
    when (is_eof rc) fail_errno
    return_true

  unfoldable pub eio_fdopen : M (World c) (Unit {0})
  eio_fdopen = do
    fd ← lua_l_checkinteger api 1
    mode ← lua_l_checkstring api 2
    r ← sys (libc_call c (c.fdopen fd mode))
    f ← or_fail_errno r
    push (lightuserdata f)
    return 1

  -- The tests of a short write.
  abbrev write_error : ℕ → M (World c) (Unit {0})
  write_error f = do
    bad ← look (λ w. c.ferror f w.libc)
    when bad fail_errno
    eof ← look (λ w. c.feof f w.libc)
    when eof (fail_with (codes "eio_fwrite: end of file"))

  unfoldable pub eio_fwrite : M (World c) (Unit {0})
  eio_fwrite = do
    v ← at_index 1
    t ← at_index 2
    f ← or_wrong (api.touserdata v)
    b ← or_wrong (api.tolstring t)
    ret ← sys (libc_call c (c.fwrite b f))
    when (not (ret == length b)) (write_error f)
    return_true
    where
      or_wrong : {A : Type 0} → Option A → M (World c) A
      or_wrong none = fail_with (codes "eio_fwrite: one or more arguments of wrong type/missing")
      or_wrong (some a) = pure a

  -- The tests of a short read.
  abbrev read_error : ℕ → ℕ → M (World c) (Unit {0})
  read_error f ret = do
    bad ← look (λ w. c.ferror f w.libc)
    when bad fail_errno
    eof ← look (λ w. c.feof f w.libc)
    when (ret == 0 && eof) (push (string []) >> return 1)

  unfoldable pub eio_fread : M (World c) (Unit {0})
  eio_fread = do
    v ← at_index 1
    n ← at_index 2
    let sz = to_size (api.tointeger n)
    f ← file_of (api.touserdata v)
    when (sz == 0) (fail_with (codes "eio_fread: one or more arguments of wrong type/missing"))
    b ← sys (get_read_buf c sz)
    buf ← or_fail_errno b
    r ← sys (libc_call c (c.fread buf sz f))
    when (not (r.0 == sz)) (read_error f r.0)
    push (string (take r.0 r.1))
    return 1
    where
      file_of : Option ℕ → M (World c) ℕ
      file_of none = fail_with (codes "eio_fread: one or more arguments of wrong type/missing")
      file_of (some f) = pure f

  unfoldable pub eio_fgetc : M (World c) (Unit {0})
  eio_fgetc = do
    f ← file_or_fail "eio_fgetc: argument of wrong type or missing"
    ch ← sys (libc_call c (c.fgetc f))
    when (is_eof ch) (do
      eof ← look (λ w. c.feof f w.libc)
      when eof (push (string []) >> return 1)
      bad ← look (λ w. c.ferror f w.libc)
      when bad fail_errno)
    push (string (to_char ch ∷ []))
    return 1
    where
      to_char : ℤ → ℕ
      to_char x = to_size x % 256

  unfoldable pub eio_fileno : M (World c) (Unit {0})
  eio_fileno = do
    f ← file_or_fail "eio_fileno: one or more arguments of wrong type/missing"
    fd ← look (λ w. c.fileno f w.libc)
    push (number fd)
    return 1

  unfoldable pub eio_feof : M (World c) (Unit {0})
  eio_feof = do
    f ← file_or_fail "eio_feof: arguments wrong type or missing"
    eof ← look (λ w. c.feof f w.libc)
    push (boolean eof)
    return 1

  unfoldable pub eio_setlinebuf : M (World c) (Unit {0})
  eio_setlinebuf = do
    f ← file_or_fail "eio_setlinebuf: one or more arguments of wrong type/missing"
    sys (libc_call c (λ s. (tt {0}, c.setlinebuf f s)))
    return_true

  unfoldable pub eio_setunbuffered : M (World c) (Unit {0})
  eio_setunbuffered = do
    f ← file_or_fail "eio_setunbuffered: one or more arguments of wrong type/missing"
    sys (libc_call c (λ s. (tt {0}, c.setbuf_null f s)))
    return_true
