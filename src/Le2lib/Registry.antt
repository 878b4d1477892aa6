-- ===== src/Le2lib/Registry.antt =====
-- generic/le2lib.c: the table of the library's functions, and that they report their failures.
pub mod Failures
pub mod Results
use e2factory.Le2lib.Registry.Failures.{
  change_directory-Reports, do_chmod-Reports, do_closefrom-Reports, get_working_directory-Reports,
  get_directory-Reports, do_execvp-Reports, lua_fork-Reports, do_forkpty-Reports, do_getpid-Reports,
  do_hardlink-Reports, ioctl_tiocsig_sigint-Reports, do_kill-Reports, do_mkdir-Reports,
  do_mkdtemp-Reports, do_mkstemp-Reports, poll_fd-Reports, do_rename-Reports, do_rmdir-Reports,
  do_setenv-Reports, signal_block-Reports, signal_install-Reports, signal_received-Reports,
  signal_reset-Reports, signal_unblock-Reports, get_file_statistics-Reports, create_symlink-Reports,
  set_umask-Reports, do_uname_machine-Reports, unblock_fd-Reports, do_unlink-Reports,
  process_wait-Reports,
}
use e2factory.Common.{List, [], ◌∷◌, ◌≡◌, refl, ap, ◌∙◌, arith, String, if◌then◌else◌}
use text.Mathlib.Text.{◌==◌}
use e2factory.Lua.{Api, M, Call, Flow, next, returns, raises, replaced, outcome, call}
use e2factory.Lua.Reports.{Reports, reports}
use e2factory.Le2lib.Posix.{Posix}
use e2factory.Le2lib.Files.{
  change_directory, do_chmod, get_working_directory, file_exists, do_hardlink, do_mkdir, do_mkdtemp,
  do_mkstemp, do_rename, do_rmdir, get_file_statistics, create_symlink, set_umask, do_unlink,
}
use e2factory.Le2lib.Directories.{do_closefrom, get_directory}
use e2factory.Le2lib.Processes.{
  do_execvp, lua_fork, do_forkpty, do_getpid, ioctl_tiocsig_sigint, do_kill, do_setenv,
  do_uname_machine, unblock_fd, process_wait,
}
use e2factory.Le2lib.Polling.{poll_fd}
use e2factory.Le2lib.Signals.{
  World, signal_block, signal_install, signal_received, signal_reset, signal_unblock,
}

-- A binding that does not touch the static variables, as one of the whole library.
abbrev pub with_statics : (p : Posix) → M p.State (Unit {0}) → M (World p) (Unit {0})
with_statics p m s =
    let r = m (record { args = s.args; pushed = s.pushed; world = s.world.posix }) in
    let t = r.1 in
    (r.0, record { args = t.args; pushed = t.pushed; world = record (s.world) { posix = t.world } })

outcome-with_statics :
    (p : Posix) (f : Flow (Unit {0})) (t : Call p.State) (w : World p)
    → outcome (f, record { args = t.args; pushed = t.pushed; world = record w { posix = t.world } })
      ≡ outcome (f, t)
outcome-with_statics p (next a) t w = refl
outcome-with_statics p (returns n) t w = refl
outcome-with_statics p (raises msg) t w = refl
outcome-with_statics p replaced t w = refl

with_statics-Reports :
    (p : Posix) (m : M p.State (Unit {0})) → Reports m → Reports (with_statics p m)
with_statics-Reports p m r args w =
    let t = call m args w.posix in ap reports (outcome-with_statics p t.0 t.1 w) ∙ r args w.posix

module _ (api : Api) (p : Posix) where
  -- `static luaL_Reg lib[]`
  abbrev pub lib : List (String × M (World p) (Unit {0}))
  lib =
      ("chdir", with_statics p (change_directory api p))
      ∷ ("chmod", with_statics p (do_chmod api p))
      ∷ ("closefrom", with_statics p (do_closefrom api p))
      ∷ ("cwd", with_statics p (get_working_directory api p))
      ∷ ("directory", with_statics p (get_directory api p))
      ∷ ("execvp", with_statics p (do_execvp api p))
      ∷ ("exists", with_statics p (file_exists api p))
      ∷ ("fork", with_statics p (lua_fork api p))
      ∷ ("forkpty", with_statics p (do_forkpty api p))
      ∷ ("getpid", with_statics p (do_getpid api p))
      ∷ ("hardlink", with_statics p (do_hardlink api p))
      ∷ ("ioctl_tiocsig_sigint", with_statics p (ioctl_tiocsig_sigint api p))
      ∷ ("kill", with_statics p (do_kill api p))
      ∷ ("mkdir", with_statics p (do_mkdir api p))
      ∷ ("mkdtemp", with_statics p (do_mkdtemp api p))
      ∷ ("mkstemp", with_statics p (do_mkstemp api p))
      ∷ ("poll", with_statics p (poll_fd api p))
      ∷ ("rename", with_statics p (do_rename api p))
      ∷ ("rmdir", with_statics p (do_rmdir api p))
      ∷ ("setenv", with_statics p (do_setenv api p))
      ∷ ("signal_block", signal_block p)
      ∷ ("signal_install", signal_install p)
      ∷ ("signal_received", signal_received p)
      ∷ ("signal_reset", signal_reset p)
      ∷ ("signal_unblock", signal_unblock p)
      ∷ ("stat", with_statics p (get_file_statistics api p))
      ∷ ("symlink", with_statics p (create_symlink api p))
      ∷ ("umask", with_statics p (set_umask api p))
      ∷ ("uname_machine", with_statics p (do_uname_machine api p))
      ∷ ("unblock", with_statics p (unblock_fd api p))
      ∷ ("unlink", with_statics p (do_unlink api p))
      ∷ ("wait", with_statics p (process_wait api p))
      ∷ []

  -- `exists` answers a question: its `false` stands alone.
  abbrev pub AllReport : List (String × M (World p) (Unit {0})) → Type 0
  AllReport [] = Unit
  AllReport ((name, m) ∷ entries) =
      (if name == "exists" then Unit else Reports m) × AllReport entries

  -- Whatever the arguments and whatever the system answers, every function of the table but
  -- `exists` that returns `false` as its first value returns the reason after it: a message, or a
  -- message and an error number, and nothing more.
  pub le2lib_lib-AllReport : AllReport lib
  le2lib_lib-AllReport = (
    with_statics-Reports p (change_directory api p) (change_directory-Reports api p),
    (
      with_statics-Reports p (do_chmod api p) (do_chmod-Reports api p),
      (
        with_statics-Reports p (do_closefrom api p) (do_closefrom-Reports api p),
        (
          with_statics-Reports p (get_working_directory api p)
              (get_working_directory-Reports api p),
          (
            with_statics-Reports p (get_directory api p) (get_directory-Reports api p),
            (
              with_statics-Reports p (do_execvp api p) (do_execvp-Reports api p),
              (
                tt,
                (
                  with_statics-Reports p (lua_fork api p) (lua_fork-Reports api p),
                  (
                    with_statics-Reports p (do_forkpty api p) (do_forkpty-Reports api p),
                    (
                      with_statics-Reports p (do_getpid api p) (do_getpid-Reports api p),
                      (
                        with_statics-Reports p (do_hardlink api p) (do_hardlink-Reports api p),
                        (
                          with_statics-Reports p (ioctl_tiocsig_sigint api p)
                              (ioctl_tiocsig_sigint-Reports api p),
                          (
                            with_statics-Reports p (do_kill api p) (do_kill-Reports api p),
                            (
                              with_statics-Reports p (do_mkdir api p) (do_mkdir-Reports api p),
                              (
                                with_statics-Reports p (do_mkdtemp api p)
                                    (do_mkdtemp-Reports api p),
                                (
                                  with_statics-Reports p (do_mkstemp api p)
                                      (do_mkstemp-Reports api p),
                                  (
                                    with_statics-Reports p (poll_fd api p) (poll_fd-Reports api p),
                                    (
                                      with_statics-Reports p (do_rename api p)
                                          (do_rename-Reports api p),
                                      (
                                        with_statics-Reports p (do_rmdir api p)
                                            (do_rmdir-Reports api p),
                                        (
                                          with_statics-Reports p (do_setenv api p)
                                              (do_setenv-Reports api p),
                                          (
                                            (signal_block-Reports api p),
                                            (
                                              (signal_install-Reports api p),
                                              (
                                                (signal_received-Reports api p),
                                                (
                                                  (signal_reset-Reports api p),
                                                  (
                                                    (signal_unblock-Reports api p),
                                                    (
                                                      with_statics-Reports p
                                                          (get_file_statistics api p)
                                                          (get_file_statistics-Reports api p),
                                                      (
                                                        with_statics-Reports p
                                                            (create_symlink api p)
                                                            (create_symlink-Reports api p),
                                                        (
                                                          with_statics-Reports p (set_umask api p)
                                                            (set_umask-Reports api p),
                                                          (
                                                            with_statics-Reports p
                                                            (do_uname_machine api p)
                                                            (do_uname_machine-Reports api p),
                                                            (
                                                            with_statics-Reports p
                                                            (unblock_fd api p)
                                                            (unblock_fd-Reports api p),
                                                            (
                                                            with_statics-Reports p (do_unlink api p)
                                                            (do_unlink-Reports api p),
                                                            (
                                                            with_statics-Reports p
                                                            (process_wait api p)
                                                            (process_wait-Reports api p),
                                                            tt,
                                                            ),
                                                            ),
                                                            ),
                                                          ),
                                                        ),
                                                      ),
                                                    ),
                                                  ),
                                                ),
                                              ),
                                            ),
                                          ),
                                        ),
                                      ),
                                    ),
                                  ),
                                ),
                              ),
                            ),
                          ),
                        ),
                      ),
                    ),
                  ),
                ),
              ),
            ),
          ),
        ),
      ),
    ),
  )
