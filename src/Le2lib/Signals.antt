-- ===== src/Le2lib/Signals.antt =====
-- generic/le2lib.c: signals. The static variables are the state of this library; a signal handler
-- runs between the steps of the program, and the Lua hook that it installs runs the cleanup.
pub mod Shutdown
pub mod Install
use e2factory.Common.{
  ℕ, zero, suc, ◌+◌, ◌-◌, Bool, true, false, not, Option, none, some, List, [], ◌∷◌, ◌++◌, Bytes,
  String, codes, ℤ, pos, negative, ltb, ◌==◌, ◌||◌, if◌then◌else◌,
}
use e2factory.Lua.{
  Value, boolean, number, string, Api, M, Call, ◌>>=◌, ◌>>◌, pure, return, when, push, at_index,
  sys, look, lua_l_error, return_true,
}
use e2factory.Le2lib.Posix.{Posix, Action, Handler, dfl, ign, catch}

-- `globalL`, `signal_shutdown`, `signal_received_first` and `block_set`; whether the hook is set;
-- and whether the handler has ended the process.
pub record Statics : Type 0 where
  pub global_l : Bool
  pub shutdown : Bool
  pub received_first : ℕ
  pub block_set : List ℕ
  pub hook : Bool
  pub exited : Option ℕ

pub record World (p : Posix) : Type 0 where
  pub posix : p.State
  pub statics : Statics

-- `signal_handler`
unfoldable pub signal_handler : ℕ → Statics → Statics
signal_handler sig v =
    if v.shutdown
    then v
    else if v.global_l
    then record v { shutdown = true; received_first = sig; hook = true }
    else record v { shutdown = true; received_first = sig; exited = some 1 }

-- `lua_signal_handler`: the hook removes itself, and calls `e2lib.interrupt_hook`.
unfoldable pub lua_signal_handler : Statics → Statics
lua_signal_handler v = record v { hook = false }

-- The numbers on Linux.
abbrev pub sighup : ℕ
sighup = 1

abbrev pub sigint : ℕ
sigint = 2

abbrev pub sigfpe : ℕ
sigfpe = 8

abbrev pub sigkill : ℕ
sigkill = 9

abbrev pub sigpipe : ℕ
sigpipe = 13

abbrev pub sigterm : ℕ
sigterm = 15

abbrev pub sigcont : ℕ
sigcont = 18

abbrev pub sigstop : ℕ
sigstop = 19

abbrev pub nsig : ℕ
nsig = 65

abbrev pub caught_signals : List ℕ
caught_signals = sigint ∷ sigterm ∷ sigpipe ∷ sighup ∷ []

-- The handler that `signal_reset` gives a signal; `none` where the loop goes on.
unfoldable pub reset_handler : ℕ → Option Handler
reset_handler s =
    if s == sigfpe
    then some ign
    else if s == sigkill || (s == sigstop || s == sigcont)
    then none
    else some dfl

module _ (p : Posix) where
  abbrev pub posix_call : {A : Type 0} → (p.State → A × p.State) → World p → A × World p
  posix_call f w = let r = f w.posix in (r.0, record w { posix = r.1 })

  abbrev pub strerror_errno : World p → Bytes
  strerror_errno w = p.strerror (p.errno w.posix)

  -- `lua_pushboolean(L, 0); lua_pushstring(L, strerror(errno));`
  abbrev push_errno : M (World p) (Unit {0})
  push_errno = do e ← look strerror_errno; push (boolean false); push (string e)

  -- `for (s = 1; s < NSIG; s++)`, with `left` rounds to go. The flag says that `sigaction` failed.
  unfoldable pub reset_from : ℕ → ℕ → p.State → Bool × p.State
  reset_from zero s st = (false, st)
  reset_from (suc left) s st =
      let old = p.get_action s st in
      let set = λ (handler : Handler).
        p.set_action s (record (old.0.1) { handler = handler; flags = 0 }) old.1 in
      let go_on = λ (st' : p.State). reset_from left (s + 1) st' in
      elim (negative old.0.0) [
        | true ↦ (false, old.1)
        | false ↦ elim (reset_handler s) [
          | none ↦ go_on old.1
          | some handler ↦ elim (negative (set handler).0) [
            | true ↦ (true, (set handler).1)
            | false ↦ go_on (set handler).1
          ]
        ]
      ]

  unfoldable pub signal_reset : M (World p) (Unit {0})
  signal_reset = do
    rc ← sys (posix_call (p.set_pdeathsig 0))
    when (negative rc) push_errno
    failed ← sys (posix_call (reset_from (nsig - 1) 1))
    when failed (push_errno >> return 2)
    push (boolean true)
    return 1

  -- `for (i = 0; signals[i] != 0; i++)`: the flag says that `sigaction` failed.
  unfoldable pub install_all : Action → List ℕ → p.State → Bool × p.State
  install_all sa [] st = (false, st)
  install_all sa (s ∷ signals) st =
      let r = p.set_action s sa st in
      elim (negative r.0) [ true ↦ (true, r.1) | false ↦ install_all sa signals r.1 ]

  unfoldable pub signal_install : M (World p) (Unit {0})
  signal_install = do
    sys (λ w. (
      tt {0},
      record w { statics = record (w.statics) { global_l = true; block_set = caught_signals } },
    ))
    let sa : Action = record { handler = catch; flags = 0; mask = caught_signals }
    failed ← sys (posix_call (install_all sa caught_signals))
    when failed (push_errno >> return 2)
    rc ← sys (posix_call (p.set_pdeathsig sigint))
    when (negative rc) push_errno
    push (boolean true)
    return 1

  unfoldable pub signal_received : M (World p) (Unit {0})
  signal_received = do
    first ← look (λ w. w.statics.received_first)
    push (string (if first == 0 then [] else p.strsignal first))
    push (number (pos first))
    return 2

  abbrev change_mask : Bool → String → M (World p) (Unit {0})
  change_mask block name = do
    set ← look (λ w. w.statics.block_set)
    rc ← sys (posix_call (p.procmask block set))
    e ← look strerror_errno
    when (negative rc) (lua_l_error (codes name ++ (codes " failed: " ++ e)))
    return 0

  unfoldable pub signal_block : M (World p) (Unit {0})
  signal_block = change_mask true "sigprocmask(SIG_BLOCK)"

  unfoldable pub signal_unblock : M (World p) (Unit {0})
  signal_unblock = change_mask false "sigprocmask(SIG_UNBLOCK)"
