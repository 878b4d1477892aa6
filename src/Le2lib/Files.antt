-- ===== src/Le2lib/Files.antt =====
-- generic/le2lib.c: the bindings on files and names.
use e2factory.Common.{
  ℕ, ◌+◌, true, not, none, some, Bytes, String, codes, pos, negative, nonzero, length, leb, ltb,
  ◌==◌, bit_and, if◌then◌else◌,
}
use e2factory.Lua.{
  Value, nil, boolean, number, string, table, Fields, end, field, Api, M, ◌>>=◌, ◌>>◌, pure, return,
  when, push, gettop, sys, lua_l_checkstring, lua_l_checkinteger, second_flag, fail_with,
  return_true,
}
use e2factory.Le2lib.Posix.{Posix, Stat, fail_errno, fail_errno_3}

-- PATH_MAX of <limits.h>
abbrev pub path_max : ℕ
path_max = 4096

abbrev entry : String → Value → Fields → Fields
entry key v rest = field (string (codes key)) v rest

abbrev count : ℕ → Value
count n = number (pos n)

-- The `switch` on `st_mode & S_IFMT`, with the numbers of <sys/stat.h>.
unfoldable pub type_name : ℕ → String
type_name mode =
    let kind = bit_and mode 0o170000 in
    if kind == 0o060000
    then "block-special"
    else if kind == 0o020000
    then "character-special"
    else if kind == 0o010000
    then "fifo-special"
    else if kind == 0o100000
    then "regular"
    else if kind == 0o040000
    then "directory"
    else if kind == 0o120000
    then "symbolic-link"
    else if kind == 0o140000
    then "socket"
    else "unknown"

-- The table that `stat` returns.
unfoldable pub stat_table : Stat → Fields
stat_table st = entry "dev" (count st.dev) (
    entry "ino" (count st.ino) (
      entry "mode" (count st.mode) (
        entry "nlink" (count st.nlink) (
          entry "uid" (count st.uid) (
            entry "gid" (count st.gid) (
              entry "rdev" (count st.rdev) (
                entry "size" (count st.size) (
                  entry "atime" (count st.atime) (
                    entry "atime_nsec" (count st.atime_nsec) (
                      entry "mtime" (count st.mtime) (
                        entry "mtime_nsec" (count st.mtime_nsec) (
                          entry "ctime" (count st.ctime) (
                            entry "ctime_nsec" (count st.ctime_nsec) (
                              entry "blksize" (count st.blksize) (
                                entry "blocks" (count st.blocks) (
                                  entry "type" (string (codes (type_name st.mode)))
                                    end))))))))))))))))

module _ (api : Api) (p : Posix) where
  unfoldable pub get_working_directory : M p.State (Unit {0})
  get_working_directory = do
    r ← sys (p.getcwd (path_max + 1))
    cwd ← elim r [ none ↦ fail_errno p | some d ↦ pure d ]
    push (string cwd)
    return 1

  unfoldable pub get_file_statistics : M p.State (Unit {0})
  get_file_statistics = do
    path ← lua_l_checkstring api 1
    fl ← second_flag api
    r ← sys (if fl then p.stat path else p.lstat path)
    when (negative r.0) (fail_errno p)
    push (table (stat_table r.1))
    return 1

  unfoldable pub file_exists : M p.State (Unit {0})
  file_exists = do
    f ← lua_l_checkstring api 1
    execute ← second_flag api
    rc ← sys (p.access f execute)
    push (boolean (not (nonzero rc)))
    return 1

  unfoldable pub change_directory : M p.State (Unit {0})
  change_directory = do
    path ← lua_l_checkstring api 1
    rc ← sys (p.chdir path)
    when (negative rc) (fail_errno p)
    return_true

  unfoldable pub create_symlink : M p.State (Unit {0})
  create_symlink = do
    old ← lua_l_checkstring api 1
    new ← lua_l_checkstring api 2
    rc ← sys (p.symlink old new)
    when (nonzero rc) (fail_errno p)
    return_true

  unfoldable pub do_hardlink : M p.State (Unit {0})
  do_hardlink = do
    old ← lua_l_checkstring api 1
    new ← lua_l_checkstring api 2
    rc ← sys (p.link old new)
    when (nonzero rc) (fail_errno p)
    return_true

  unfoldable pub do_rename : M p.State (Unit {0})
  do_rename = do
    src ← lua_l_checkstring api 1
    dst ← lua_l_checkstring api 2
    rc ← sys (p.rename src dst)
    when (not (nonzero rc)) return_true
    fail_errno_3 p

  unfoldable pub do_unlink : M p.State (Unit {0})
  do_unlink = do
    pathname ← lua_l_checkstring api 1
    rc ← sys (p.unlink pathname)
    when (nonzero rc) (fail_errno p)
    return_true

  unfoldable pub do_rmdir : M p.State (Unit {0})
  do_rmdir = do
    pathname ← lua_l_checkstring api 1
    rc ← sys (p.rmdir pathname)
    when (nonzero rc) (fail_errno p)
    return_true

  unfoldable pub do_mkdir : M p.State (Unit {0})
  do_mkdir = do
    pathname ← lua_l_checkstring api 1
    top ← gettop
    mode ← if ltb 1 top then lua_l_checkinteger api 2 else pure (pos 0o777)
    rc ← sys (p.mkdir pathname mode)
    when (nonzero rc) (fail_errno_3 p)
    return_true

  unfoldable pub do_chmod : M p.State (Unit {0})
  do_chmod = do
    path ← lua_l_checkstring api 1
    mode ← lua_l_checkinteger api 2
    rc ← sys (p.chmod path mode)
    when (nonzero rc) (fail_errno p)
    return_true

  -- `snprintf(template, PATH_MAX, "%s", template_in) >= PATH_MAX`
  abbrev template_fits : Bytes → M p.State (Unit {0})
  template_fits template =
      when (leb path_max (length template)) (fail_with (codes "template does not fit in PATH_MAX"))

  unfoldable pub do_mkdtemp : M p.State (Unit {0})
  do_mkdtemp = do
    template ← lua_l_checkstring api 1
    template_fits template
    r ← sys (p.mkdtemp template)
    name ← elim r [ none ↦ fail_errno p | some d ↦ pure d ]
    push (boolean true)
    push nil
    push (string name)
    return 3

  unfoldable pub do_mkstemp : M p.State (Unit {0})
  do_mkstemp = do
    template ← lua_l_checkstring api 1
    template_fits template
    r ← sys (p.mkstemp template)
    when (negative r.0) (fail_errno p)
    push (boolean true)
    push nil
    push (string r.1)
    push (number r.0)
    return 4

  unfoldable pub set_umask : M p.State (Unit {0})
  set_umask = do u ← lua_l_checkinteger api 1; pu ← sys (p.umask u); push (number pu); return 1
