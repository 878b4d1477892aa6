-- ===== src/Su/Order/Main.antt =====
-- global/e2-su-2.2.c: every command, and so `main`, keeps to the order that the monitor allows.
use e2factory.Common.{
  ◌≤◌, ◌<◌, ◌≡◌, refl, ap, Option, some, Bool, true, false, List, [], ◌∷◌, Bytes, arith, length,
  codes, length-drop, length-append, if◌then◌else◌,
}
use e2factory.Common.Sorting.{member, bytes_eq_refl}
use e2factory.Su.Job.{Job, argument, on_chroot, on_base, job_for, job_of, is_marker, is_work}
use e2factory.Su.Run.{Host, Run, snprintf, ◌>>◌, setuid_root, execv_or_exit}
use e2factory.Su.Commands.{
  chroot_2_2, extract_tar_2_2, set_permissions_2_2, remove_chroot_2_2, chroot_2_3, extract_tar_2_3,
  set_permissions_2_3, remove_chroot_2_3,
}
use e2factory.Su.Main.{dispatch, main}
use e2factory.Su.Order.{
  fresh, checked, ended, stage_after, Leads, ◌▷◌, Any, setuid_root-Leads, execv_or_exit-Leads,
  perr_if-Leads, argv_at-Leads, arg_256-Leads, marker-Leads, marker_2_3-Leads, tar_option-Leads,
  perr-Leads, ends_of_Leads,
}

module _ (h : Host) where
  abbrev Ends : Option Job → Run (Unit {0}) → Type 0
  Ends j m = Leads h j fresh m ended Any

  exec-Leads :
      {j : Option Job} (tool : Bytes) (args arg : List Bytes)
      → is_work j tool args ≡ true
      → (length arg < 256) × (arg ≡ args)
      → Leads h j checked (setuid_root h >> execv_or_exit h tool arg) ended Any
  exec-Leads tool args arg work (fits, same) =
      setuid_root-Leads ▷ λ _ _. execv_or_exit-Leads tool arg fits (rw same work)

  -- The marker of the directory that the command line names.
  on_chroot-marker :
      (tool : Bytes) (argv : List Bytes) (path : Bytes)
      → path ≡ argument argv 2
      → is_marker (some (on_chroot tool (argument argv 2))) (snprintf path "/emlix-chroot") ≡ true
  on_chroot-marker tool argv path same = rw same (bytes_eq_refl _)

  on_base-marker :
      (tool : Bytes) (argv : List Bytes) (base : Bytes)
      → base ≡ argument argv 2
      → is_marker (some (on_base tool (argument argv 2))) (snprintf base "/e2factory-chroot") ≡ true
  on_base-marker tool argv base same = rw same (bytes_eq_refl _)

  on_chroot-work :
      (tool : Bytes) (argv args : List Bytes)
      → member (argument argv 2) args ≡ true
      → is_work (some (on_chroot tool (argument argv 2))) tool args ≡ true
  on_chroot-work tool argv args m = ground (arith, m, bytes_eq_refl tool)

  on_base-work :
      (tool : Bytes) (argv args : List Bytes)
      → member (snprintf (argument argv 2) "/chroot") args ≡ true
      → is_work (some (on_base tool (argument argv 2))) tool args ≡ true
  on_base-work tool argv args m = ground (arith, m, bytes_eq_refl tool)

  -- The directory stands behind one argument, behind two, or behind three.
  at_1 : (a t t' : Bytes) (rest : List Bytes) → t' ≡ t → member t (a ∷ t' ∷ rest) ≡ true
  unfolding member
  at_1 a t t' rest same = rw same (ground (arith, bytes_eq_refl t))

  at_2 : (a b t t' : Bytes) (rest : List Bytes) → t' ≡ t → member t (a ∷ b ∷ t' ∷ rest) ≡ true
  unfolding member
  at_2 a b t t' rest same = rw same (ground (arith, bytes_eq_refl t))

  at_3 : (a b c t t' : Bytes) (rest : List Bytes) → t' ≡ t → member t (a ∷ b ∷ c ∷ t' ∷ rest) ≡ true
  unfolding member
  at_3 a b c t t' rest same = rw same (ground (arith, bytes_eq_refl t))

  chroot_2_2-Ends :
      (argv : List Bytes)
      → length argv ≤ 128
      → Ends (some (on_chroot h.chroot_tool (argument argv 2))) (chroot_2_2 h argv)
  unfolding chroot_2_2
  chroot_2_2-Ends argv few = perr_if-Leads fresh _ _ refl ▷ λ _ enough.
      argv_at-Leads fresh argv 2 (ground arith) ▷ λ path same.
      marker-Leads path (on_chroot-marker h.chroot_tool argv path same) ▷ λ _ _.
      arg_256-Leads checked _ (omega (arith, length-drop 3 argv)) ▷ λ arg built.
      exec-Leads _ _ arg (on_chroot-work h.chroot_tool argv _ (at_1 _ _ _ _ same)) built

  extract_tar_2_2-Ends :
      (argv : List Bytes)
      → Ends (some (on_chroot h.tar_tool (argument argv 2))) (extract_tar_2_2 h argv)
  unfolding extract_tar_2_2
  extract_tar_2_2-Ends argv = perr_if-Leads fresh _ _ refl ▷ λ _ enough.
      argv_at-Leads fresh argv 2 (ground arith) ▷ λ path same.
      marker-Leads path (on_chroot-marker h.tar_tool argv path same) ▷ λ _ _.
      argv_at-Leads checked argv 3 (ground arith) ▷ λ tartype _.
      argv_at-Leads checked argv 4 (ground arith) ▷ λ file _.
      tar_option-Leads tartype ▷ λ option short.
      arg_256-Leads checked _ (omega (arith, length-append option (codes "-xf" ∷ file ∷ [])))
      ▷ λ arg built.
          exec-Leads _ _ arg (on_chroot-work h.tar_tool argv _ (at_2 _ _ _ _ _ same)) built

  set_permissions_2_2-Ends :
      (argv : List Bytes)
      → Ends (some (on_chroot h.chown_tool (argument argv 2))) (set_permissions_2_2 h argv)
  unfolding set_permissions_2_2
  set_permissions_2_2-Ends argv = perr_if-Leads fresh _ _ refl ▷ λ _ enough.
      argv_at-Leads fresh argv 2 (ground arith) ▷ λ path same.
      marker-Leads path (on_chroot-marker h.chown_tool argv path same) ▷ λ _ _.
      arg_256-Leads checked _ (omega arith) ▷ λ arg built.
      exec-Leads _ _ arg (on_chroot-work h.chown_tool argv _ (at_2 _ _ _ _ _ same)) built

  remove_chroot_2_2-Ends :
      (argv : List Bytes)
      → Ends (some (on_chroot h.rm_tool (argument argv 2))) (remove_chroot_2_2 h argv)
  unfolding remove_chroot_2_2
  remove_chroot_2_2-Ends argv = perr_if-Leads fresh _ _ refl ▷ λ _ enough.
      argv_at-Leads fresh argv 2 (ground arith) ▷ λ path same.
      marker-Leads path (on_chroot-marker h.rm_tool argv path same) ▷ λ _ _.
      arg_256-Leads checked _ (omega arith) ▷ λ arg built.
      exec-Leads _ _ arg (on_chroot-work h.rm_tool argv _ (at_3 _ _ _ _ _ _ same)) built

  chroot_2_3-Ends :
      (argv : List Bytes)
      → length argv ≤ 128
      → Ends (some (on_base h.chroot_tool (argument argv 2))) (chroot_2_3 h argv)
  unfolding chroot_2_3
  chroot_2_3-Ends argv few = perr_if-Leads fresh _ _ refl ▷ λ _ enough.
      argv_at-Leads fresh argv 2 (ground arith) ▷ λ base same.
      marker_2_3-Leads base (on_base-marker h.chroot_tool argv base same) ▷ λ _ _.
      arg_256-Leads checked _ (omega (arith, length-drop 3 argv)) ▷ λ arg built.
      exec-Leads _ _ arg
        (on_base-work h.chroot_tool argv _ (at_1 _ _ _ _ (ap (λ b. snprintf b "/chroot") same)))
        built

  extract_tar_2_3-Ends :
      (argv : List Bytes)
      → Ends (some (on_base h.tar_tool (argument argv 2))) (extract_tar_2_3 h argv)
  unfolding extract_tar_2_3
  extract_tar_2_3-Ends argv = perr_if-Leads fresh _ _ refl ▷ λ _ enough.
      argv_at-Leads fresh argv 2 (ground arith) ▷ λ base same.
      marker_2_3-Leads base (on_base-marker h.tar_tool argv base same) ▷ λ _ _.
      argv_at-Leads checked argv 3 (ground arith) ▷ λ tartype _.
      argv_at-Leads checked argv 4 (ground arith) ▷ λ file _.
      tar_option-Leads tartype ▷ λ option short.
      arg_256-Leads checked _ (omega (arith, length-append option (codes "-xf" ∷ file ∷ [])))
      ▷ λ arg built.
          exec-Leads _ _ arg
            (on_base-work h.tar_tool argv _ (at_2 _ _ _ _ _ (ap (λ b. snprintf b "/chroot") same)))
            built

  set_permissions_2_3-Ends :
      (argv : List Bytes)
      → Ends (some (on_base h.chown_tool (argument argv 2))) (set_permissions_2_3 h argv)
  unfolding set_permissions_2_3
  set_permissions_2_3-Ends argv = perr_if-Leads fresh _ _ refl ▷ λ _ enough.
      argv_at-Leads fresh argv 2 (ground arith) ▷ λ base same.
      marker_2_3-Leads base (on_base-marker h.chown_tool argv base same) ▷ λ _ _.
      arg_256-Leads checked _ (omega arith) ▷ λ arg built.
      exec-Leads _ _ arg
        (on_base-work h.chown_tool argv _ (at_2 _ _ _ _ _ (ap (λ b. snprintf b "/chroot") same)))
        built

  remove_chroot_2_3-Ends :
      (argv : List Bytes)
      → Ends (some (on_base h.rm_tool (argument argv 2))) (remove_chroot_2_3 h argv)
  unfolding remove_chroot_2_3
  remove_chroot_2_3-Ends argv = perr_if-Leads fresh _ _ refl ▷ λ _ enough.
      argv_at-Leads fresh argv 2 (ground arith) ▷ λ base same.
      marker_2_3-Leads base (on_base-marker h.rm_tool argv base same) ▷ λ _ _.
      arg_256-Leads checked _ (omega arith) ▷ λ arg built.
      exec-Leads _ _ arg
        (on_base-work h.rm_tool argv _ (at_3 _ _ _ _ _ _ (ap (λ b. snprintf b "/chroot") same)))
        built

  if-Ends :
      (b : Bool) {j k : Option Job} {m n : Run (Unit {0})}
      → Ends j m
      → Ends k n
      → Ends (if b then j else k) (if b then m else n)
  if-Ends true p q = p
  if-Ends false p q = q

  dispatch-Ends :
      (argv : List Bytes) (cmd : Bytes)
      → length argv ≤ 128
      → Ends (job_for h (argument argv 2) cmd) (dispatch h argv cmd)
  unfolding dispatch
  dispatch-Ends argv cmd few = if-Ends _ (chroot_2_2-Ends argv few) (
      if-Ends _ (extract_tar_2_2-Ends argv) (
        if-Ends _ (set_permissions_2_2-Ends argv) (
          if-Ends _ (remove_chroot_2_2-Ends argv) (
            if-Ends _ (chroot_2_3-Ends argv few) (
              if-Ends _ (extract_tar_2_3-Ends argv) (
                if-Ends _ (set_permissions_2_3-Ends argv)
                  (if-Ends _ (remove_chroot_2_3-Ends argv) (perr-Leads fresh _ refl))))))))

  dispatch-job :
      (argv : List Bytes) (cmd : Bytes)
      → length argv ≤ 128
      → cmd ≡ argument argv 1
      → Ends (job_of h argv) (dispatch h argv cmd)
  dispatch-job argv cmd few same = rw (← same) (dispatch-Ends argv cmd few)

  -- On every host and for every command line, the trace of `main` is in the monitor's order for
  -- the job that the command line asks for, and the process has ended. The one file that is
  -- tested is the marker of the second argument, under the name that snprintf makes and cuts at
  -- PATH_MAX - 1 bytes; it was readable before the environment is cleared and root taken as user
  -- 0, group 0 and with no other group, in this order, each call having succeeded before the
  -- next; only then is a tool executed, the one of the command, with fewer than 256 arguments,
  -- the command's directory among them; every other way out is one message and then the exit
  -- status 99; nothing is read or written outside an array.
  pub main-stage_after :
      (argv : List Bytes) → stage_after h (job_of h argv) fresh (main h argv).events ≡ ended
  unfolding main
  main-stage_after argv = ends_of_Leads (
      perr_if-Leads fresh _ _ refl ▷ λ _ enough. perr_if-Leads fresh _ _ refl ▷ λ _ few.
      argv_at-Leads fresh argv 1 (ground arith) ▷ λ cmd same.
      dispatch-job argv cmd (ground arith) same)
