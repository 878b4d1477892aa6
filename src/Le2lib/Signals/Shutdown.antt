-- ===== src/Le2lib/Signals/Shutdown.antt =====
-- generic/le2lib.c: what any sequence of signals leaves behind, with the hook running in between.
pub mod Cleanup
use e2factory.Common.{
  ℕ, suc, ◌+◌, ◌≡◌, refl, sym, subst, ◌∙◌, Bool-cases, inl, inr, true, false, Option, none, some,
  List, [], ◌∷◌, arith, if◌then◌else◌,
}
use e2factory.Le2lib.Signals.{Statics, signal_handler, lua_signal_handler}

-- What interrupts the program: a signal arrives, or the interpreter reaches the hook, which does
-- nothing while it is not set.
pub data Moment : Type 0 where
  arrives : ℕ → Moment
  hook_point : Moment

-- The static variables, and how often the hook has run the cleanup.
pub step : Moment → Statics × ℕ → Statics × ℕ
step (arrives sig) (v, runs) = (signal_handler sig v, runs)
step hook_point (v, runs) = if v.hook then (lua_signal_handler v, suc runs) else (v, runs)

pub run : List Moment → Statics × ℕ → Statics × ℕ
run [] s = s
run (m ∷ ms) s = run ms (step m s)

-- The first signal of a sequence.
abbrev pub first_signal : List Moment → Option ℕ
first_signal [] = none
first_signal (arrives sig ∷ ms) = some sig
first_signal (hook_point ∷ ms) = first_signal ms

-- The state after `signal_install`, before any signal.
pub record IsQuiet (v : Statics) : Type 0 where
  pub installed : v.global_l ≡ true
  pub running : v.shutdown ≡ false
  pub unhooked : v.hook ≡ false

pub signal_handler-down : (sig : ℕ) (v : Statics) → v.shutdown ≡ true → signal_handler sig v ≡ v
unfolding signal_handler
signal_handler-down sig v down = ground arith

pub step-unhooked :
    (v : Statics) (runs : ℕ) → v.hook ≡ false → step hook_point (v, runs) ≡ (v, runs)
unfolding step
step-unhooked v runs off = ground arith

pub step-hooked :
    (v : Statics) (runs : ℕ)
    → v.hook ≡ true
    → step hook_point (v, runs) ≡ (record v { hook = false }, suc runs)
unfolding step lua_signal_handler
step-hooked v runs on = ground arith

pub signal_handler-quiet :
    (sig : ℕ) (v : Statics)
    → IsQuiet v
    → signal_handler sig v ≡ record v { shutdown = true; received_first = sig; hook = true }
unfolding signal_handler
signal_handler-quiet sig v q = ground arith

abbrev pub pending : Statics → ℕ
pending v = if v.hook then 1 else 0

-- The run from `v` has kept what was recorded, and the cleanups that ran or are pending.
abbrev Kept : Statics → ℕ → Statics × ℕ → Type 0
Kept v runs r =
    (r.0.received_first ≡ v.received_first)
    × (r.0.exited ≡ v.exited)
    × (r.1 + pending r.0 ≡ runs + pending v)

shut_down-run :
    (ms : List Moment) (v : Statics) (runs : ℕ) → v.shutdown ≡ true → Kept v runs (run ms (v, runs))
unfolding run step
shut_down-run [] v runs down = (refl, refl, refl)
shut_down-run (arrives sig ∷ ms) v runs down =
    subst (λ u. Kept v runs (run ms (u, runs))) (sym (signal_handler-down sig v down))
      (shut_down-run ms v runs down)
shut_down-run (hook_point ∷ ms) v runs down = elim (Bool-cases v.hook) [
  | inl on ↦
      subst (λ s. Kept v runs (run ms s)) (sym (step-hooked v runs on))
        (let (a, b, n) = shut_down-run ms (record v { hook = false }) (suc runs) down in
          (a, b, n ∙ ground arith))
  | inr off ↦
      subst (λ s. Kept v runs (run ms s)) (sym (step-unhooked v runs off))
        (shut_down-run ms v runs down)
]

-- From `v`, with the first signal `sig` so far.
abbrev pub Recorded : Statics → Option ℕ → Statics × ℕ → Type 0
Recorded v sig r =
    (r.0.exited ≡ v.exited)
    × (r.0.received_first ≡ elim sig [ none ↦ v.received_first | some n ↦ n ])
    × (r.1 + pending r.0 ≡ elim sig [ none ↦ 0 | some n ↦ 1 ])

-- After any sequence of signals and hook points, from the state that `signal_install` leaves: the
-- first signal of the sequence is the one recorded, later ones change nothing, the process is not
-- ended by the handler, and the cleanup has run or is pending exactly once if there was a signal
-- and not at all if there was none.
pub run-once :
    (ms : List Moment) (v : Statics) → IsQuiet v → Recorded v (first_signal ms) (run ms (v, 0))
unfolding run step
run-once [] v q = ground arith
run-once (hook_point ∷ ms) v q =
    subst (λ s. Recorded v (first_signal ms) (run ms s)) (sym (step-unhooked v 0 q.unhooked))
      (run-once ms v q)
run-once (arrives sig ∷ ms) v q =
    let w : Statics = record v { shutdown = true; received_first = sig; hook = true } in
    let (first, ended, once) = shut_down-run ms w 0 refl in
    subst (λ u. Recorded v (some sig) (run ms (u, 0))) (sym (signal_handler-quiet sig v q))
      (ended, first, once)
