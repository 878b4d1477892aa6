-- ===== src/Le2lib/Registry/Results.antt =====
-- generic/le2lib.c: the functions of the table announce the values that they push.
use e2factory.Common.{List, [], ◌∷◌, ◌≡◌, refl, ◌∙◌, arith, String}
use e2factory.Lua.{Api, M, Call, Flow, next, returns, raises, replaced, call}
use e2factory.Lua.Announced.{Announced, announced}
use e2factory.Le2lib.Posix.{Posix}
use e2factory.Le2lib.Files.{
  change_directory, do_chmod, get_working_directory, file_exists, do_hardlink, do_mkdir, do_mkdtemp,
  do_mkstemp, do_rename, do_rmdir, get_file_statistics, create_symlink, set_umask, do_unlink,
}
use e2factory.Le2lib.Directories.{do_closefrom, get_directory}
use e2factory.Le2lib.Processes.{
  do_execvp, lua_fork, do_forkpty, do_getpid, ioctl_tiocsig_sigint, do_kill, do_setenv,
  do_uname_machine, unblock_fd, process_wait,
}
use e2factory.Le2lib.Polling.{poll_fd}
use e2factory.Le2lib.Signals.{
  World, signal_block, signal_install, signal_received, signal_reset, signal_unblock,
}
use e2factory.Le2lib.Registry.{lib, with_statics}

announced-with_statics :
    (p : Posix) (f : Flow (Unit {0})) (t : Call p.State) (w : World p)
    → announced
        (f, record { args = t.args; pushed = t.pushed; world = record w { posix = t.world } })
      ≡ announced (f, t)
announced-with_statics p (next a) t w = refl
announced-with_statics p (returns n) t w = refl
announced-with_statics p (raises msg) t w = refl
announced-with_statics p replaced t w = refl

with_statics-Announced :
    (p : Posix) (m : M p.State (Unit {0})) → Announced m → Announced (with_statics p m)
with_statics-Announced p m r args w =
    let t = call m args w.posix in announced-with_statics p t.0 t.1 w ∙ r args w.posix

module _ (api : Api) (p : Posix) where
  change_directory-Announced : Announced (change_directory api p)
  unfolding change_directory
  change_directory-Announced args w = ground arith

  do_chmod-Announced : Announced (do_chmod api p)
  unfolding do_chmod
  do_chmod-Announced args w = ground arith

  do_closefrom-Announced : Announced (do_closefrom api p)
  unfolding do_closefrom
  do_closefrom-Announced args w = ground arith

  get_working_directory-Announced : Announced (get_working_directory api p)
  unfolding get_working_directory
  get_working_directory-Announced args w = ground arith

  get_directory-Announced : Announced (get_directory api p)
  unfolding get_directory
  get_directory-Announced args w = ground arith

  do_execvp-Announced : Announced (do_execvp api p)
  unfolding do_execvp
  do_execvp-Announced args w = ground arith

  file_exists-Announced : Announced (file_exists api p)
  unfolding file_exists
  file_exists-Announced args w = ground arith

  lua_fork-Announced : Announced (lua_fork api p)
  unfolding lua_fork
  lua_fork-Announced args w = ground arith

  do_forkpty-Announced : Announced (do_forkpty api p)
  unfolding do_forkpty
  do_forkpty-Announced args w = ground arith

  do_getpid-Announced : Announced (do_getpid api p)
  unfolding do_getpid
  do_getpid-Announced args w = ground arith

  do_hardlink-Announced : Announced (do_hardlink api p)
  unfolding do_hardlink
  do_hardlink-Announced args w = ground arith

  ioctl_tiocsig_sigint-Announced : Announced (ioctl_tiocsig_sigint api p)
  unfolding ioctl_tiocsig_sigint
  ioctl_tiocsig_sigint-Announced args w = ground arith

  do_kill-Announced : Announced (do_kill api p)
  unfolding do_kill
  do_kill-Announced args w = ground arith

  do_mkdir-Announced : Announced (do_mkdir api p)
  unfolding do_mkdir
  do_mkdir-Announced args w = ground arith

  do_mkdtemp-Announced : Announced (do_mkdtemp api p)
  unfolding do_mkdtemp
  do_mkdtemp-Announced args w = ground arith

  do_mkstemp-Announced : Announced (do_mkstemp api p)
  unfolding do_mkstemp
  do_mkstemp-Announced args w = ground arith

  poll_fd-Announced : Announced (poll_fd api p)
  unfolding poll_fd
  poll_fd-Announced args w = ground arith

  do_rename-Announced : Announced (do_rename api p)
  unfolding do_rename
  do_rename-Announced args w = ground arith

  do_rmdir-Announced : Announced (do_rmdir api p)
  unfolding do_rmdir
  do_rmdir-Announced args w = ground arith

  do_setenv-Announced : Announced (do_setenv api p)
  unfolding do_setenv
  do_setenv-Announced args w = ground arith

  signal_block-Announced : Announced (signal_block p)
  unfolding signal_block
  signal_block-Announced args w = ground arith

  signal_install-Announced : Announced (signal_install p)
  unfolding signal_install
  signal_install-Announced args w = ground arith

  signal_received-Announced : Announced (signal_received p)
  unfolding signal_received
  signal_received-Announced args w = ground arith

  signal_reset-Announced : Announced (signal_reset p)
  unfolding signal_reset
  signal_reset-Announced args w = ground arith

  signal_unblock-Announced : Announced (signal_unblock p)
  unfolding signal_unblock
  signal_unblock-Announced args w = ground arith

  get_file_statistics-Announced : Announced (get_file_statistics api p)
  unfolding get_file_statistics
  get_file_statistics-Announced args w = ground arith

  create_symlink-Announced : Announced (create_symlink api p)
  unfolding create_symlink
  create_symlink-Announced args w = ground arith

  set_umask-Announced : Announced (set_umask api p)
  unfolding set_umask
  set_umask-Announced args w = ground arith

  do_uname_machine-Announced : Announced (do_uname_machine api p)
  unfolding do_uname_machine
  do_uname_machine-Announced args w = ground arith

  unblock_fd-Announced : Announced (unblock_fd api p)
  unfolding unblock_fd
  unblock_fd-Announced args w = ground arith

  do_unlink-Announced : Announced (do_unlink api p)
  unfolding do_unlink
  do_unlink-Announced args w = ground arith

  process_wait-Announced : Announced (process_wait api p)
  unfolding process_wait
  process_wait-Announced args w = ground arith

  abbrev pub AllAnnounced : List (String × M (World p) (Unit {0})) → Type 0
  AllAnnounced [] = Unit
  AllAnnounced ((name, m) ∷ entries) = Announced m × AllAnnounced entries

  -- Whatever the arguments and whatever the system answers, every function of the table raises an
  -- error of Lua, has replaced the process, or ends with the `return` of a number of values, and
  -- has pushed at least that many.
  pub le2lib_lib-AllAnnounced : AllAnnounced (lib api p)
  le2lib_lib-AllAnnounced = (
    with_statics-Announced p (change_directory api p) change_directory-Announced,
    (
      with_statics-Announced p (do_chmod api p) do_chmod-Announced,
      (
        with_statics-Announced p (do_closefrom api p) do_closefrom-Announced,
        (
          with_statics-Announced p (get_working_directory api p) get_working_directory-Announced,
          (
            with_statics-Announced p (get_directory api p) get_directory-Announced,
            (
              with_statics-Announced p (do_execvp api p) do_execvp-Announced,
              (
                with_statics-Announced p (file_exists api p) file_exists-Announced,
                (
                  with_statics-Announced p (lua_fork api p) lua_fork-Announced,
                  (
                    with_statics-Announced p (do_forkpty api p) do_forkpty-Announced,
                    (
                      with_statics-Announced p (do_getpid api p) do_getpid-Announced,
                      (
                        with_statics-Announced p (do_hardlink api p) do_hardlink-Announced,
                        (
                          with_statics-Announced p (ioctl_tiocsig_sigint api p)
                              ioctl_tiocsig_sigint-Announced,
                          (
                            with_statics-Announced p (do_kill api p) do_kill-Announced,
                            (
                              with_statics-Announced p (do_mkdir api p) do_mkdir-Announced,
                              (
                                with_statics-Announced p (do_mkdtemp api p) do_mkdtemp-Announced,
                                (
                                  with_statics-Announced p (do_mkstemp api p) do_mkstemp-Announced,
                                  (
                                    with_statics-Announced p (poll_fd api p) poll_fd-Announced,
                                    (
                                      with_statics-Announced p (do_rename api p)
                                          do_rename-Announced,
                                      (
                                        with_statics-Announced p (do_rmdir api p)
                                            do_rmdir-Announced,
                                        (
                                          with_statics-Announced p (do_setenv api p)
                                              do_setenv-Announced,
                                          (
                                            signal_block-Announced,
                                            (
                                              signal_install-Announced,
                                              (
                                                signal_received-Announced,
                                                (
                                                  signal_reset-Announced,
                                                  (
                                                    signal_unblock-Announced,
                                                    (
                                                      with_statics-Announced p
                                                          (get_file_statistics api p)
                                                          get_file_statistics-Announced,
                                                      (
                                                        with_statics-Announced p
                                                            (create_symlink api p)
                                                            create_symlink-Announced,
                                                        (
                                                          with_statics-Announced p (set_umask api p)
                                                            set_umask-Announced,
                                                          (
                                                            with_statics-Announced p
                                                            (do_uname_machine api p)
                                                            do_uname_machine-Announced,
                                                            (
                                                            with_statics-Announced p
                                                            (unblock_fd api p) unblock_fd-Announced,
                                                            (
                                                            with_statics-Announced p
                                                            (do_unlink api p) do_unlink-Announced,
                                                            (
                                                            with_statics-Announced p
                                                            (process_wait api p)
                                                            process_wait-Announced,
                                                            tt,
                                                            ),
                                                            ),
                                                            ),
                                                          ),
                                                        ),
                                                      ),
                                                    ),
                                                  ),
                                                ),
                                              ),
                                            ),
                                          ),
                                        ),
                                      ),
                                    ),
                                  ),
                                ),
                              ),
                            ),
                          ),
                        ),
                      ),
                    ),
                  ),
                ),
              ),
            ),
          ),
        ),
      ),
    ),
  )
