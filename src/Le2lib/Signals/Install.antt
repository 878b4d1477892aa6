-- ===== src/Le2lib/Signals/Install.antt =====
-- generic/le2lib.c, `signal_install`: what it returns and what it sets.
use e2factory.Common.{◌≡◌, Bool, true, false, List, [], ◌∷◌, arith, if◌then◌else◌}
use e2factory.Lua.{Value, boolean, string, values, outcome, call}
use e2factory.Le2lib.Posix.{Posix, Action, catch}
use e2factory.Le2lib.Signals.{World, signal_install, install_all, caught_signals}

module _ (p : Posix) (args : List Value) (w : World p) where
  -- The action that is installed: no restart of system calls, the other caught signals blocked.
  abbrev pub shutdown_action : Action
  shutdown_action = record { handler = catch; flags = 0; mask = caught_signals }

  abbrev pub installed : Bool × p.State
  installed = install_all p shutdown_action caught_signals w.posix

  -- `signal_install` answers `true` exactly when every handler was installed: whether the parent's
  -- death will be signalled makes no difference to the answer. In any case the statics name the
  -- Lua state and the four signals to block, and are otherwise as before.
  pub signal_install_lem :
      let r = call (signal_install p) args w in
      (outcome r ≡ (
        if installed.0
        then values (boolean false ∷ string (p.strerror (p.errno installed.1)) ∷ [])
        else values (boolean true ∷ [])))
      × (r.1.world.statics ≡ record (w.statics) { global_l = true; block_set = caught_signals })
  unfolding signal_install
  signal_install_lem = (ground arith, ground arith)
