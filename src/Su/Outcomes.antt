-- ===== src/Su/Outcomes.antt =====
-- global/e2-su-2.2.c: whole traces of `main`: the removal of a chroot, with a base that fits
-- PATH_MAX and with one that does not, and the command lines that are refused.
use e2factory.Common.{
  ◌+◌, ◌-◌, ◌≤◌, ◌<◌, ◌≡◌, refl, ◌∙◌, ap, ap₂, String, ◌||◌, Bool, true, false, List, [], ◌∷◌, ◌++◌,
  Bytes, arith, length, codes, length-append, take, take_all, take-append_left, bytes_eq,
  if◌then◌else◌, ltb, lt→ltb, le→not-ltb, Bool-cases, inl, inr, Option, none, some,
}
use mathlib.Core.Option.{some-injective}
use e2factory.Su.Run.{
  Host, Event, puts, exit, access, clearenv, setuid, setgid, setgroups, execv, snprintf, path_max,
  perr_if, argv_at, assert_chroot_environment_2_3, arg_256, setuid_root, must, execv_or_exit, ◌>>=◌,
  continue_with, perr,
}
use e2factory.Su.Main.{main, dispatch}
use e2factory.Su.Commands.{remove_chroot_2_3}

-- A host on which the process may become root and every tool can be executed.
pub record IsRoot (h : Host) : Type 0 where
  pub clears : h.clearenv_ok ≡ true
  pub user : h.setuid_ok ≡ true
  pub group : h.setgid_ok ≡ true
  pub groups : h.setgroups_ok ≡ true
  pub executes : (tool : Bytes) (args : List Bytes) → h.execv_ok tool args ≡ true

-- The events of a run that tests `marker`, becomes root and removes `path`.
abbrev pub removal : Host → Bytes → Bytes → List Event
removal h marker path =
    access marker
    ∷ clearenv
    ∷ setuid 0
    ∷ setgid 0
    ∷ setgroups 0
    ∷ execv h.rm_tool (h.basename h.rm_tool ∷ codes "-r" ∷ codes "-f" ∷ path ∷ [])
    ∷ []

module _ (h : Host) (root : IsRoot h) (prog base : Bytes) where
  main-removal :
      h.readable (snprintf base "/e2factory-chroot") ≡ true
      → (main h (prog ∷ codes "remove_chroot_2_3" ∷ base ∷ [])).events
        ≡ removal h (snprintf base "/e2factory-chroot") (snprintf base "/chroot")
  unfolding main dispatch remove_chroot_2_3 perr_if argv_at assert_chroot_environment_2_3 arg_256
      setuid_root must execv_or_exit bytes_eq ◌>>=◌ continue_with
  main-removal found =
      rw (found, root.clears, root.user, root.group, root.groups, root.executes) refl

  main-removal_at :
      (name path : Bytes)
      → snprintf base "/e2factory-chroot" ≡ name
      → snprintf base "/chroot" ≡ path
      → h.readable name ≡ true
      → (main h (prog ∷ codes "remove_chroot_2_3" ∷ base ∷ [])).events ≡ removal h name path
  main-removal_at name path e f found = main-removal (ap h.readable e ∙ found) ∙ ap₂ (removal h) e f

  -- With root at hand and the marker readable, `remove_chroot_2_3 <base>` removes <base>/chroot
  -- and has tested <base>/e2factory-chroot, if <base> leaves room for both names in PATH_MAX.
  pub main-remove_chroot_2_3 :
      length base + 18 ≤ path_max
      → h.readable (base ++ codes "/e2factory-chroot") ≡ true
      → (main h (prog ∷ codes "remove_chroot_2_3" ∷ base ∷ [])).events
        ≡ removal h (base ++ codes "/e2factory-chroot") (base ++ codes "/chroot")
  main-remove_chroot_2_3 short found =
      main-removal_at _ _ (fits "/e2factory-chroot" (omega arith)) (fits "/chroot" (omega arith))
        found
    where
      fits :
          (suffix : String)
          → length (codes suffix) ≤ 17
          → snprintf base suffix ≡ base ++ codes suffix
      fits suffix few =
          take_all (path_max - 1) (base ++ codes suffix)
            (omega (arith, length-append base (codes suffix)))

  -- A base of PATH_MAX - 1 bytes or more drives both suffixes out of the buffers: the marker test
  -- reads the first PATH_MAX - 1 bytes of <base> itself, and if any such file or directory is
  -- readable, that path is removed, without any marker file.
  pub main-remove_chroot_2_3_truncated :
      path_max ≤ length base + 1
      → h.readable (take (path_max - 1) base) ≡ true
      → (main h (prog ∷ codes "remove_chroot_2_3" ∷ base ∷ [])).events
        ≡ removal h (take (path_max - 1) base) (take (path_max - 1) base)
  main-remove_chroot_2_3_truncated long found =
      main-removal_at _ _ (cut "/e2factory-chroot") (cut "/chroot") found
    where
      cut : (suffix : String) → snprintf base suffix ≡ take (path_max - 1) base
      cut suffix = take-append_left (path_max - 1) base (codes suffix) (omega arith)

-- The commands of the helper.
abbrev pub known : Bytes → Bool
known cmd =
    bytes_eq cmd (codes "chroot_2_2")
    || (bytes_eq cmd (codes "extract_tar_2_2")
        || (bytes_eq cmd (codes "set_permissions_2_2")
            || (bytes_eq cmd (codes "remove_chroot_2_2")
                || (bytes_eq cmd (codes "chroot_2_3")
                    || (bytes_eq cmd (codes "extract_tar_2_3")
                        || (bytes_eq cmd (codes "set_permissions_2_3")
                            || bytes_eq cmd (codes "remove_chroot_2_3")))))))

-- A message on standard output and the exit status 99, and nothing else.
abbrev pub refusal : String → List Event
refusal msg = puts (codes msg) ∷ exit 99 ∷ []

-- Why a command line is refused, if it is.
abbrev pub refused : List Bytes → Option String
refused (prog ∷ cmd ∷ operand ∷ rest) =
    if ltb 125 (length rest)
    then some "too many arguments"
    else if known cmd
    then none
    else some "unknown command"
refused _ = some "too few arguments"

dispatch-unknown :
    (h : Host) (argv : List Bytes) (cmd : Bytes)
    → known cmd ≡ false
    → (dispatch h argv cmd).events ≡ refusal "unknown command"
unfolding dispatch perr
dispatch-unknown h argv cmd other = ground arith

main-many :
    (h : Host) (prog cmd operand : Bytes) (rest : List Bytes)
    → 125 < length rest
    → (main h (prog ∷ cmd ∷ operand ∷ rest)).events ≡ refusal "too many arguments"
unfolding main perr_if perr ◌>>=◌ continue_with
main-many h prog cmd operand rest many =
    let n = length (prog ∷ cmd ∷ operand ∷ rest) in
    rw (le→not-ltb n 3 (omega arith), lt→ltb 128 n (omega arith)) refl

main-unknown :
    (h : Host) (prog cmd operand : Bytes) (rest : List Bytes)
    → length rest ≤ 125
    → known cmd ≡ false
    → (main h (prog ∷ cmd ∷ operand ∷ rest)).events ≡ refusal "unknown command"
unfolding main perr_if argv_at perr ◌>>=◌ continue_with
main-unknown h prog cmd operand rest few other =
    let n = length (prog ∷ cmd ∷ operand ∷ rest) in
    rw (le→not-ltb n 3 (omega arith), le→not-ltb 128 n (omega arith))
      (dispatch-unknown h (prog ∷ cmd ∷ operand ∷ rest) cmd other)

refusal_same : (a b : String) → some a ≡ some b → refusal a ≡ refusal b
refusal_same a b e = ap refusal (some-injective a b e)

-- A command line with fewer than three arguments, with more than 128, or with a command that is
-- none of the eight, is refused with the message for it before any file is tested.
pub main-refused :
    (h : Host) (argv : List Bytes) (msg : String)
    → refused argv ≡ some msg
    → (main h argv).events ≡ refusal msg
unfolding main perr_if argv_at perr ◌>>=◌ continue_with
main-refused h [] msg e = refusal_same _ msg e
main-refused h (prog ∷ []) msg e = refusal_same _ msg e
main-refused h (prog ∷ cmd ∷ []) msg e = refusal_same _ msg e
main-refused h (prog ∷ cmd ∷ operand ∷ rest) msg e = elim (Bool-cases (ltb 125 (length rest))) [
  | inl many ↦ main-many h prog cmd operand rest (ground arith) ∙ refusal_same _ msg (rw many at e)
  | inr few ↦ elim (Bool-cases (known cmd)) [
    | inl ours ↦ grind (arith, rw (few, ours) at e)
    | inr other ↦
        main-unknown h prog cmd operand rest (ground arith) other
        ∙ refusal_same _ msg (rw (few, other) at e)
  ]
]
