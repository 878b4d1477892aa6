-- ===== src/Su/Order.antt =====
-- global/e2-su-2.2.c: the order of events in a run, as a monitor that reads the trace.
pub mod Main
use mathlib.Core.List.{foldl}
use e2factory.Common.{
  zero, ◌+◌, some, none, Option, append_assoc, sym, ℕ, suc, ◌≤◌, ◌<◌, ◌≡◌, refl, Bool, true, false,
  List, [], ◌∷◌, ◌++◌, Bytes, arith, length, leb, ltb, ◌==◌, if◌then◌else◌, ◌∙◌, ap, bytes_eq, ◌⊎◌,
  inl, inr, Bool-cases, ◌&&◌, String, lt→ltb, drop, codes,
}
use e2factory.Su.Job.{Job, argument, is_marker, is_work}
use e2factory.Su.Run.{
  Host, Event, puts, perror, exit, access, clearenv, setuid, setgid, setgroups, execv, fault, Run,
  pure, continue_with, snprintf, ◌>>=◌, ◌>>◌, must, setuid_root, execv_or_exit, perr, perr_if,
  argv_at, arg_256, assert_chroot_environment, assert_chroot_environment_2_3,
}
use e2factory.Su.Commands.{
  tar_option, chroot_2_2, extract_tar_2_2, set_permissions_2_2, remove_chroot_2_2, chroot_2_3,
  extract_tar_2_3, set_permissions_2_3, remove_chroot_2_3,
}
use e2factory.Su.Main.{dispatch, main}

-- Where a run stands: nothing checked yet; the marker file found; the environment cleared; then
-- root as user, group and in the supplementary groups; something has failed and nothing has been
-- said; a message has been printed; over; out of order.
pub data Stage : Type 0 where
  fresh checked scrubbed as_user as_group privileged failing leaving ended broken : Stage

abbrev pub on : Bool → Stage → Stage
on b st = if b then st else failing

abbrev pub Any : {A : Type 0} → A → Type 0
Any a = Unit {0}

module _ (h : Host) (j : Option Job) where
  -- What one event does to the stage, in a run that is to do the job. Anything not listed is out of order.
  abbrev pub advance : Stage → Event → Stage
  advance fresh (access name) = if is_marker j name then on (h.readable name) checked else broken
  advance fresh (puts msg) = leaving
  advance checked (puts msg) = leaving
  advance checked clearenv = on h.clearenv_ok scrubbed
  advance scrubbed (setuid u) = if u == 0 then on h.setuid_ok as_user else broken
  advance as_user (setgid g) = if g == 0 then on h.setgid_ok as_group else broken
  advance as_group (setgroups n) = if n == 0 then on h.setgroups_ok privileged else broken
  advance privileged (execv tool args) =
      if ltb (length args) 256 && is_work j tool args
      then on (h.execv_ok tool args) ended
      else broken
  advance failing (puts msg) = leaving
  advance failing (perror msg) = leaving
  advance leaving (exit code) = if code == 99 then ended else broken
  advance _ _ = broken

  -- The stage after a trace.
  abbrev pub stage_after : Stage → List Event → Stage
  stage_after st [] = st
  stage_after st (e ∷ es) = stage_after (advance st e) es

  stage_after-append :
      (st : Stage) (es fs : List Event)
      → stage_after st (es ++ fs) ≡ stage_after (stage_after st es) fs
  stage_after-append st [] fs = refl
  stage_after-append st (e ∷ es) fs = stage_after-append (advance st e) es fs

  abbrev pub Post : {A : Type 0} → Stage → List Event → Option A → Stage → (A → Type 0) → Type 0
  Post st es none st' P = stage_after st es ≡ ended
  Post st es (some a) st' P = (stage_after st es ≡ st') × P a

  -- A run from `st` ends in order, or goes on at `st'` with a value that meets `P`.
  pub record Leads {A : Type 0} (st : Stage) (m : Run A) (st' : Stage) (P : A → Type 0)
      : Type 0 where
    pub holds : Post st m.events m.value st' P

module _ {h : Host} {j : Option Job} where
  Post-continue_with :
      {A B : Type 0} (P : A → Type 0) (Q : B → Type 0) (st st' st'' : Stage) (es : List Event)
      (o : Option A) (f : A → Run B)
      → Post h j st es o st' P
      → ((a : A) → P a → Leads h j st' (f a) st'' Q)
      → Leads h j st (continue_with es o f) st'' Q
  unfolding continue_with
  Post-continue_with P Q st st' st'' es none f first rest = record { holds = first }
  Post-continue_with {A} {B} P Q st st' st'' es (some a) f (first, p) rest = record {
    holds = prefix (f a).events (f a).value (rest a p).holds;
  }
    where
      joins : (fs : List Event) → stage_after h j st (es ++ fs) ≡ stage_after h j st' fs
      joins fs = stage_after-append h j st es fs ∙ ap (λ s. stage_after h j s fs) first

      prefix :
          (fs : List Event) (o : Option B)
          → Post h j st' fs o st'' Q
          → Post h j st (es ++ fs) o st'' Q
      prefix fs none k = joins fs ∙ k
      prefix fs (some b) (k, q) = (joins fs ∙ k, q)

  infixr 6 ◌▷◌
  pub ◌▷◌ :
      {A B : Type 0} {P : A → Type 0} {Q : B → Type 0} {st st' st'' : Stage} {m : Run A}
      {f : A → Run B}
      → Leads h j st m st' P
      → ((a : A) → P a → Leads h j st' (f a) st'' Q)
      → Leads h j st (m >>= f) st'' Q
  unfolding ◌>>=◌
  ◌▷◌ {P = P} {Q = Q} {st = st} {st' = st'} {st'' = st''} {m = m} {f = f} first rest =
      Post-continue_with P Q st st' st'' m.events m.value f first.holds rest

  must-Leads :
      (st st' : Stage) (done : Bool) (e : Event) (msg : String)
      → advance h j st e ≡ on done st'
      → Leads h j st (must done e msg) st' Any
  unfolding must
  must-Leads st st' true e msg eq = record { holds = (eq, tt) }
  must-Leads st st' false e msg eq = record {
    holds = ap (λ s. stage_after h j s (perror (codes msg) ∷ exit 99 ∷ [])) eq;
  }

  pub setuid_root-Leads : Leads h j checked (setuid_root h) privileged Any
  unfolding setuid_root
  setuid_root-Leads = must-Leads checked scrubbed _ _ _ refl ▷ λ _ _.
      must-Leads scrubbed as_user _ _ _ refl ▷ λ _ _.
      must-Leads as_user as_group _ _ _ refl ▷ λ _ _. must-Leads as_group privileged _ _ _ refl

  pub execv_or_exit-Leads :
      (tool : Bytes) (args : List Bytes)
      → length args < 256
      → is_work j tool args ≡ true
      → Leads h j privileged (execv_or_exit h tool args) ended Any
  unfolding execv_or_exit
  execv_or_exit-Leads tool args fits work = elim (Bool-cases (h.execv_ok tool args)) [
    | inl good ↦ rw good (record { holds = rw (lt→ltb _ _ fits, work, good) refl })
    | inr bad ↦ rw bad (record { holds = rw (lt→ltb _ _ fits, work, bad) refl })
  ]

  pub perr-Leads :
      {A : Type 0} {st' : Stage} {P : A → Type 0} (st : Stage) (msg : String)
      → advance h j st (puts (codes msg)) ≡ leaving
      → Leads h j st (perr msg) st' P
  unfolding perr
  perr-Leads st msg e = record { holds = ap (λ s. stage_after h j s (exit 99 ∷ [])) e }

  pub perr_if-Leads :
      (st : Stage) (b : Bool) (msg : String)
      → advance h j st (puts (codes msg)) ≡ leaving
      → Leads h j st (perr_if b msg) st (λ _. b ≡ false)
  unfolding perr_if perr
  perr_if-Leads st true msg e = record { holds = ap (λ s. stage_after h j s (exit 99 ∷ [])) e }
  perr_if-Leads st false msg e = record { holds = (refl, refl) }

  pub argv_at-Leads :
      (st : Stage) (argv : List Bytes) (i : ℕ)
      → i < length argv
      → Leads h j st (argv_at argv i) st (λ a. a ≡ argument argv i)
  unfolding argv_at
  argv_at-Leads st [] i within = absurd (omega arith)
  argv_at-Leads st (a ∷ argv) zero within = record { holds = (refl, refl) }
  argv_at-Leads st (a ∷ argv) (suc i) within = record {
    holds = (argv_at-Leads st argv i (omega arith)).holds;
  }

  pub arg_256-Leads :
      (st : Stage) (args : List Bytes)
      → length args < 256
      → Leads h j st (arg_256 args) st (λ a. (length a < 256) × (a ≡ args))
  unfolding arg_256
  arg_256-Leads st args fits =
      let e : leb (length args + 1) 256 ≡ true = ground arith in
      rw e (record { holds = (refl, (fits, refl)) })

  pub marker-Leads :
      (path : Bytes)
      → is_marker j (snprintf path "/emlix-chroot") ≡ true
      → Leads h j fresh (assert_chroot_environment h path) checked Any
  unfolding assert_chroot_environment ◌>>=◌ continue_with perr_if perr
  marker-Leads path mark = elim (Bool-cases (h.readable (snprintf path "/emlix-chroot"))) [
    | inl good ↦ rw good (record { holds = (rw (mark, good) refl, tt) })
    | inr bad ↦ rw bad (record { holds = rw (mark, bad) refl })
  ]

  pub marker_2_3-Leads :
      (base : Bytes)
      → is_marker j (snprintf base "/e2factory-chroot") ≡ true
      → Leads h j fresh (assert_chroot_environment_2_3 h base) checked Any
  unfolding assert_chroot_environment_2_3 ◌>>=◌ continue_with perr_if perr
  marker_2_3-Leads base mark = elim (Bool-cases (h.readable (snprintf base "/e2factory-chroot"))) [
    | inl good ↦ rw good (record { holds = (rw (mark, good) refl, tt) })
    | inr bad ↦ rw bad (record { holds = rw (mark, bad) refl })
  ]

  pub tar_option-Leads :
      (tartype : Bytes)
      → Leads h j checked (tar_option tartype) checked (λ option. length option ≤ 1)
  unfolding tar_option perr
  tar_option-Leads tartype = elim (Bool-cases (bytes_eq tartype (codes "tar.gz"))) [
    | inl a ↦ rw a (record { holds = (refl, omega arith) })
    | inr a ↦ elim (Bool-cases (bytes_eq tartype (codes "tar.bz2"))) [
      | inl b ↦ rw (a, b) (record { holds = (refl, omega arith) })
      | inr b ↦ elim (Bool-cases (bytes_eq tartype (codes "tar"))) [
        | inl c ↦ rw (a, b, c) (record { holds = (refl, omega arith) })
        | inr c ↦ rw (a, b, c) (record { holds = refl })
      ]
    ]
  ]

  -- A run that always leaves has ended.
  pub ends_of_Leads :
      {A : Type 0} {m : Run A} {P : A → Type 0}
      → Leads h j fresh m ended P
      → stage_after h j fresh m.events ≡ ended
  ends_of_Leads {A} {m} {P} l = read m.value l.holds
    where
      read :
          (o : Option A)
          → Post h j fresh m.events o ended P
          → stage_after h j fresh m.events ≡ ended
      read none e = e
      read (some a) e = e.0
