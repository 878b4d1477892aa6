-- ===== src/Tests/Helper.antt =====
-- The theorems on global/e2-su-2.2.c, on a host that has the tools and lets the process be root.
use e2factory.Common.{
  bytes_eq, ◌≡◌, refl, true, List, [], ◌∷◌, Bytes, codes, replicate, take, ◌-◌, arith,
}
use e2factory.Su.Run.{Host, path_max}
use e2factory.Su.Job.{job_of}
use e2factory.Su.Main.{main}
use e2factory.Su.Order.{fresh, ended, stage_after}
use e2factory.Su.Order.Main.{main-stage_after}
use e2factory.Su.Outcomes.{
  IsRoot, removal, refusal, main-remove_chroot_2_3, main-remove_chroot_2_3_truncated, main-refused,
}

-- A host where every file can be read and no call fails.
abbrev host : Host
host = record {
  chroot_tool = codes "/usr/sbin/chroot";
  tar_tool = codes "/bin/tar";
  chown_tool = codes "/bin/chown";
  rm_tool = codes "/bin/rm";
  basename = λ path. path;
  readable = λ path. true;
  clearenv_ok = true;
  setuid_ok = true;
  setgid_ok = true;
  setgroups_ok = true;
  execv_ok = λ tool args. true;
}

abbrev host-IsRoot : IsRoot host
host-IsRoot = record {
  clears = refl;
  user = refl;
  group = refl;
  groups = refl;
  executes = λ tool args. refl;
}

abbrev prog : Bytes
prog = codes "e2-su-2.2"

abbrev base : Bytes
base = codes "/tmp/e2/chroot-1"

-- A path of the longest length that the kernel takes.
abbrev long_base : Bytes
long_base = replicate 4095 b'/'

abbrev command_line : List Bytes
command_line = prog ∷ codes "chroot_2_3" ∷ base ∷ codes "/bin/sh" ∷ []

main-stage_after_example :
    stage_after host (job_of host command_line) fresh (main host command_line).events ≡ ended
main-stage_after_example = main-stage_after host command_line

main-remove_chroot_2_3_example :
    (main host (prog ∷ codes "remove_chroot_2_3" ∷ base ∷ [])).events
    ≡ removal host (codes "/tmp/e2/chroot-1/e2factory-chroot") (codes "/tmp/e2/chroot-1/chroot")
main-remove_chroot_2_3_example =
    main-remove_chroot_2_3 host host-IsRoot prog base (omega arith) refl

main-remove_chroot_2_3_truncated_example :
    (main host (prog ∷ codes "remove_chroot_2_3" ∷ long_base ∷ [])).events
    ≡ removal host (take (path_max - 1) long_base) (take (path_max - 1) long_base)
main-remove_chroot_2_3_truncated_example =
    main-remove_chroot_2_3_truncated host host-IsRoot prog long_base (omega arith) refl

main-refused_example :
    (main host (prog ∷ codes "remove_everything" ∷ base ∷ [])).events ≡ refusal "unknown command"
unfolding bytes_eq
main-refused_example =
    main-refused host (prog ∷ codes "remove_everything" ∷ base ∷ []) "unknown command" refl
