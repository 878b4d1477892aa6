-- ===== src/Su/Run.antt =====
-- global/e2-su-2.2.c: the calls of libc as a trace of events, the early `exit`, and the helpers
-- that every command uses. `print_arg` does nothing without DEBUG.
use e2factory.Common.{
  ℕ, ◌+◌, ◌-◌, Bool, not, Option, none, some, List, [], ◌∷◌, ◌++◌, String, Bytes, codes,
  if◌then◌else◌, leb, length, take, get_elem?,
}

-- The host: the tool paths fixed at build time, libgen's `basename`, and the answers of the
-- system calls during one run.
pub record Host : Type 0 where
  pub chroot_tool : Bytes
  pub tar_tool : Bytes
  pub chown_tool : Bytes
  pub rm_tool : Bytes
  pub basename : Bytes → Bytes
  pub readable : Bytes → Bool
  pub clearenv_ok : Bool
  pub setuid_ok : Bool
  pub setgid_ok : Bool
  pub setgroups_ok : Bool
  pub execv_ok : Bytes → List Bytes → Bool

-- What a run does, in order. `fault` is a read or write outside an array.
pub data Event : Type 0 where
  puts perror : Bytes → Event
  exit : ℕ → Event
  access : Bytes → Event
  clearenv : Event
  setuid setgid setgroups : ℕ → Event
  execv : Bytes → List Bytes → Event
  fault : Event

-- What a run has done, and the value with which it goes on; `none` when the process has ended.
pub record Run (A : Type 0) : Type 0 where
  pub events : List Event
  pub value : Option A

abbrev pub pure : {A : Type 0} → A → Run A
pure a = record { events = []; value = some a }

-- The process ends after these events.
abbrev pub halt : {A : Type 0} → List Event → Run A
halt es = record { events = es; value = none }

-- One event, after which the process goes on.
abbrev pub emit : Event → Run (Unit {0})
emit e = record { events = e ∷ []; value = some tt }

unfoldable pub continue_with : {A B : Type 0} → List Event → Option A → (A → Run B) → Run B
continue_with es none f = halt es
continue_with es (some a) f = let r = f a in record { events = es ++ r.events; value = r.value }

infixl 5 ◌>>=◌ ◌>>◌
unfoldable pub ◌>>=◌ : {A B : Type 0} → Run A → (A → Run B) → Run B
m >>= f = continue_with m.events m.value f

abbrev pub ◌>>◌ : {B : Type 0} → Run (Unit {0}) → Run B → Run B
m >> k = m >>= λ _. k

-- PATH_MAX of <limits.h>
abbrev pub path_max : ℕ
path_max = 4096

-- `snprintf(name, PATH_MAX, "%s<suffix>", path)`: what does not fit is cut off.
abbrev pub snprintf : Bytes → String → Bytes
snprintf path suffix = take (path_max - 1) (path ++ codes suffix)

unfoldable pub perr : {A : Type 0} → String → Run A
perr msg = halt (puts (codes msg) ∷ exit 99 ∷ [])

-- `if (b) perr(msg);`
unfoldable pub perr_if : Bool → String → Run (Unit {0})
perr_if b msg = if b then perr msg else pure tt

unfoldable pub argv_at : List Bytes → ℕ → Run Bytes
argv_at argv i = elim (get_elem? argv i) [ some a ↦ pure a | none ↦ halt (fault ∷ []) ]

-- The array `char *arg[256]`, filled with the given strings and a closing NULL.
unfoldable pub arg_256 : List Bytes → Run (List Bytes)
arg_256 args = if leb (length args + 1) 256 then pure args else halt (fault ∷ [])

-- A call that exits with `perror` when it fails.
unfoldable pub must : Bool → Event → String → Run (Unit {0})
must done e msg = if done then emit e else halt (e ∷ perror (codes msg) ∷ exit 99 ∷ [])

module _ (h : Host) where
  unfoldable pub setuid_root : Run (Unit {0})
  setuid_root = do
    must h.clearenv_ok clearenv "can't clearenv()"
    must h.setuid_ok (setuid 0) "can't setuid(0)"
    must h.setgid_ok (setgid 0) "can't setgid(0)"
    must h.setgroups_ok (setgroups 0) "can't setgroups()"

  unfoldable pub assert_chroot_environment : Bytes → Run (Unit {0})
  assert_chroot_environment path =
      let name = snprintf path "/emlix-chroot" in
      emit (access name) >> perr_if (not (h.readable name)) "not a chroot environment"

  unfoldable pub assert_chroot_environment_2_3 : Bytes → Run (Unit {0})
  assert_chroot_environment_2_3 base =
      let name = snprintf base "/e2factory-chroot" in
      emit (access name) >> perr_if (not (h.readable name)) "not a chroot environment"

  -- `execv(tool, arg); perror("can't exec"); exit(99);`
  unfoldable pub execv_or_exit : Bytes → List Bytes → Run (Unit {0})
  execv_or_exit tool args =
      if h.execv_ok tool args
      then halt (execv tool args ∷ [])
      else halt (execv tool args ∷ perror (codes "can't exec") ∷ exit 99 ∷ [])
