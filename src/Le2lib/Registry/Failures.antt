-- ===== src/Le2lib/Registry/Failures.antt =====
-- generic/le2lib.c: each function of the table reports its failures.
use e2factory.Common.{arith}
use e2factory.Lua.{Api}
use e2factory.Lua.Reports.{Reports}
use e2factory.Le2lib.Posix.{Posix}
use e2factory.Le2lib.Files.{
  change_directory, do_chmod, get_working_directory, do_hardlink, do_mkdir, do_mkdtemp, do_mkstemp,
  do_rename, do_rmdir, get_file_statistics, create_symlink, set_umask, do_unlink,
}
use e2factory.Le2lib.Directories.{do_closefrom, get_directory}
use e2factory.Le2lib.Processes.{
  do_execvp, lua_fork, do_forkpty, do_getpid, ioctl_tiocsig_sigint, do_kill, do_setenv,
  do_uname_machine, unblock_fd, process_wait,
}
use e2factory.Le2lib.Polling.{poll_fd}
use e2factory.Le2lib.Signals.{
  signal_block, signal_install, signal_received, signal_reset, signal_unblock,
}

module _ (api : Api) (p : Posix) where
  pub change_directory-Reports : Reports (change_directory api p)
  unfolding change_directory
  change_directory-Reports args w = ground arith

  pub do_chmod-Reports : Reports (do_chmod api p)
  unfolding do_chmod
  do_chmod-Reports args w = ground arith

  pub do_closefrom-Reports : Reports (do_closefrom api p)
  unfolding do_closefrom
  do_closefrom-Reports args w = ground arith

  pub get_working_directory-Reports : Reports (get_working_directory api p)
  unfolding get_working_directory
  get_working_directory-Reports args w = ground arith

  pub get_directory-Reports : Reports (get_directory api p)
  unfolding get_directory
  get_directory-Reports args w = ground arith

  pub do_execvp-Reports : Reports (do_execvp api p)
  unfolding do_execvp
  do_execvp-Reports args w = ground arith

  pub lua_fork-Reports : Reports (lua_fork api p)
  unfolding lua_fork
  lua_fork-Reports args w = ground arith

  pub do_forkpty-Reports : Reports (do_forkpty api p)
  unfolding do_forkpty
  do_forkpty-Reports args w = ground arith

  pub do_getpid-Reports : Reports (do_getpid api p)
  unfolding do_getpid
  do_getpid-Reports args w = ground arith

  pub do_hardlink-Reports : Reports (do_hardlink api p)
  unfolding do_hardlink
  do_hardlink-Reports args w = ground arith

  pub ioctl_tiocsig_sigint-Reports : Reports (ioctl_tiocsig_sigint api p)
  unfolding ioctl_tiocsig_sigint
  ioctl_tiocsig_sigint-Reports args w = ground arith

  pub do_kill-Reports : Reports (do_kill api p)
  unfolding do_kill
  do_kill-Reports args w = ground arith

  pub do_mkdir-Reports : Reports (do_mkdir api p)
  unfolding do_mkdir
  do_mkdir-Reports args w = ground arith

  pub do_mkdtemp-Reports : Reports (do_mkdtemp api p)
  unfolding do_mkdtemp
  do_mkdtemp-Reports args w = ground arith

  pub do_mkstemp-Reports : Reports (do_mkstemp api p)
  unfolding do_mkstemp
  do_mkstemp-Reports args w = ground arith

  pub poll_fd-Reports : Reports (poll_fd api p)
  unfolding poll_fd
  poll_fd-Reports args w = ground arith

  pub do_rename-Reports : Reports (do_rename api p)
  unfolding do_rename
  do_rename-Reports args w = ground arith

  pub do_rmdir-Reports : Reports (do_rmdir api p)
  unfolding do_rmdir
  do_rmdir-Reports args w = ground arith

  pub do_setenv-Reports : Reports (do_setenv api p)
  unfolding do_setenv
  do_setenv-Reports args w = ground arith

  pub signal_block-Reports : Reports (signal_block p)
  unfolding signal_block
  signal_block-Reports args w = ground arith

  pub signal_install-Reports : Reports (signal_install p)
  unfolding signal_install
  signal_install-Reports args w = ground arith

  pub signal_received-Reports : Reports (signal_received p)
  unfolding signal_received
  signal_received-Reports args w = ground arith

  pub signal_reset-Reports : Reports (signal_reset p)
  unfolding signal_reset
  signal_reset-Reports args w = ground arith

  pub signal_unblock-Reports : Reports (signal_unblock p)
  unfolding signal_unblock
  signal_unblock-Reports args w = ground arith

  pub get_file_statistics-Reports : Reports (get_file_statistics api p)
  unfolding get_file_statistics
  get_file_statistics-Reports args w = ground arith

  pub create_symlink-Reports : Reports (create_symlink api p)
  unfolding create_symlink
  create_symlink-Reports args w = ground arith

  pub set_umask-Reports : Reports (set_umask api p)
  unfolding set_umask
  set_umask-Reports args w = ground arith

  pub do_uname_machine-Reports : Reports (do_uname_machine api p)
  unfolding do_uname_machine
  do_uname_machine-Reports args w = ground arith

  pub unblock_fd-Reports : Reports (unblock_fd api p)
  unfolding unblock_fd
  unblock_fd-Reports args w = ground arith

  pub do_unlink-Reports : Reports (do_unlink api p)
  unfolding do_unlink
  do_unlink-Reports args w = ground arith

  pub process_wait-Reports : Reports (process_wait api p)
  unfolding process_wait
  process_wait-Reports args w = ground arith
