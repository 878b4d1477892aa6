-- ===== src/Su/Commands.antt =====
-- global/e2-su-2.2.c: the eight commands, each a branch of `main`.
use e2factory.Common.{
  not, List, [], ◌∷◌, ◌++◌, Bytes, codes, bytes_eq, if◌then◌else◌, ltb, ◌==◌, length, drop,
}
use e2factory.Su.Run.{
  Host, Run, pure, ◌>>=◌, ◌>>◌, snprintf, perr, perr_if, argv_at, arg_256, setuid_root,
  assert_chroot_environment, assert_chroot_environment_2_3, execv_or_exit,
}

-- The option that selects the decompressor.
unfoldable pub tar_option : Bytes → Run (List Bytes)
tar_option tartype =
    if bytes_eq tartype (codes "tar.gz")
    then pure (codes "--gzip" ∷ [])
    else if bytes_eq tartype (codes "tar.bz2")
    then pure (codes "--bzip2" ∷ [])
    else if bytes_eq tartype (codes "tar")
    then pure []
    else perr "wrong tararg argument"

module _ (h : Host) (argv : List Bytes) where
  -- chroot_2_2 <path> ...
  unfoldable pub chroot_2_2 : Run (Unit {0})
  chroot_2_2 = do
    perr_if (ltb (length argv) 3) "too few arguments"
    path ← argv_at argv 2
    assert_chroot_environment h path
    arg ← arg_256 (h.basename h.chroot_tool ∷ path ∷ drop 3 argv)
    setuid_root h
    execv_or_exit h h.chroot_tool arg

  -- extract_tar_2_2 <path> <tartype> <file>
  unfoldable pub extract_tar_2_2 : Run (Unit {0})
  extract_tar_2_2 = do
    perr_if (not (length argv == 5)) "wrong number of arguments"
    path ← argv_at argv 2
    assert_chroot_environment h path
    tartype ← argv_at argv 3
    file ← argv_at argv 4
    option ← tar_option tartype
    arg ←
        arg_256 (h.basename h.tar_tool ∷ codes "-C" ∷ path ∷ (option ++ (codes "-xf" ∷ file ∷ [])))
    setuid_root h
    execv_or_exit h h.tar_tool arg

  -- set_permissions_2_2 <path>
  unfoldable pub set_permissions_2_2 : Run (Unit {0})
  set_permissions_2_2 = do
    perr_if (not (length argv == 3)) "wrong number of arguments"
    path ← argv_at argv 2
    assert_chroot_environment h path
    arg ← arg_256 (h.basename h.chown_tool ∷ codes "root:root" ∷ path ∷ [])
    setuid_root h
    execv_or_exit h h.chown_tool arg

  -- remove_chroot_2_2 <path>
  unfoldable pub remove_chroot_2_2 : Run (Unit {0})
  remove_chroot_2_2 = do
    perr_if (not (length argv == 3)) "wrong number of arguments"
    path ← argv_at argv 2
    assert_chroot_environment h path
    arg ← arg_256 (h.basename h.rm_tool ∷ codes "-r" ∷ codes "-f" ∷ path ∷ [])
    setuid_root h
    execv_or_exit h h.rm_tool arg

  -- chroot_2_3 <base> ...
  unfoldable pub chroot_2_3 : Run (Unit {0})
  chroot_2_3 = do
    perr_if (ltb (length argv) 3) "too few arguments"
    base ← argv_at argv 2
    let path = snprintf base "/chroot"
    assert_chroot_environment_2_3 h base
    arg ← arg_256 (h.basename h.chroot_tool ∷ path ∷ drop 3 argv)
    setuid_root h
    execv_or_exit h h.chroot_tool arg

  -- extract_tar_2_3 <base> <tartype> <file>
  unfoldable pub extract_tar_2_3 : Run (Unit {0})
  extract_tar_2_3 = do
    perr_if (not (length argv == 5)) "wrong number of arguments"
    base ← argv_at argv 2
    assert_chroot_environment_2_3 h base
    let path = snprintf base "/chroot"
    tartype ← argv_at argv 3
    file ← argv_at argv 4
    option ← tar_option tartype
    arg ←
        arg_256 (h.basename h.tar_tool ∷ codes "-C" ∷ path ∷ (option ++ (codes "-xf" ∷ file ∷ [])))
    setuid_root h
    execv_or_exit h h.tar_tool arg

  -- set_permissions_2_3 <base>
  unfoldable pub set_permissions_2_3 : Run (Unit {0})
  set_permissions_2_3 = do
    perr_if (not (length argv == 3)) "wrong number of arguments"
    base ← argv_at argv 2
    assert_chroot_environment_2_3 h base
    let path = snprintf base "/chroot"
    arg ← arg_256 (h.basename h.chown_tool ∷ codes "root:root" ∷ path ∷ [])
    setuid_root h
    execv_or_exit h h.chown_tool arg

  -- remove_chroot_2_3 <base>
  unfoldable pub remove_chroot_2_3 : Run (Unit {0})
  remove_chroot_2_3 = do
    perr_if (not (length argv == 3)) "wrong number of arguments"
    base ← argv_at argv 2
    assert_chroot_environment_2_3 h base
    let path = snprintf base "/chroot"
    arg ← arg_256 (h.basename h.rm_tool ∷ codes "-r" ∷ codes "-f" ∷ path ∷ [])
    setuid_root h
    execv_or_exit h h.rm_tool arg
