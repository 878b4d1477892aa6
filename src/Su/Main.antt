-- ===== src/Su/Main.antt =====
-- global/e2-su-2.2.c: `main`, the check of the argument count and the choice of the command.
use e2factory.Common.{List, Bytes, codes, bytes_eq, if◌then◌else◌, ltb, length}
use e2factory.Su.Run.{Host, Run, ◌>>=◌, ◌>>◌, perr, perr_if, argv_at}
use e2factory.Su.Commands.{
  chroot_2_2, extract_tar_2_2, set_permissions_2_2, remove_chroot_2_2, chroot_2_3, extract_tar_2_3,
  set_permissions_2_3, remove_chroot_2_3,
}

module _ (h : Host) (argv : List Bytes) where
  -- The chain of `strcmp` tests.
  unfoldable pub dispatch : Bytes → Run (Unit {0})
  dispatch cmd =
      if bytes_eq cmd (codes "chroot_2_2")
      then chroot_2_2 h argv
      else if bytes_eq cmd (codes "extract_tar_2_2")
      then extract_tar_2_2 h argv
      else if bytes_eq cmd (codes "set_permissions_2_2")
      then set_permissions_2_2 h argv
      else if bytes_eq cmd (codes "remove_chroot_2_2")
      then remove_chroot_2_2 h argv
      else if bytes_eq cmd (codes "chroot_2_3")
      then chroot_2_3 h argv
      else if bytes_eq cmd (codes "extract_tar_2_3")
      then extract_tar_2_3 h argv
      else if bytes_eq cmd (codes "set_permissions_2_3")
      then set_permissions_2_3 h argv
      else if bytes_eq cmd (codes "remove_chroot_2_3")
      then remove_chroot_2_3 h argv
      else perr "unknown command"

  unfoldable pub main : Run (Unit {0})
  main = do
    perr_if (ltb (length argv) 3) "too few arguments"
    perr_if (ltb 128 (length argv)) "too many arguments"
    cmd ← argv_at argv 1
    dispatch cmd
