-- ===== src/Le2lib/Signals/Shutdown/Cleanup.antt =====
-- generic/le2lib.c: the hook that a signal sets runs the cleanup at the next point where the
-- interpreter looks at hooks.
use e2factory.Common.{ℕ, ◌≡◌, refl, sym, subst, ap, ◌∙◌, Bool, true, false, List, [], ◌∷◌}
use e2factory.Le2lib.Signals.{Statics}
use e2factory.Le2lib.Signals.Shutdown.{
  Moment, arrives, hook_point, step, run, IsQuiet, signal_handler-down, signal_handler-quiet,
  step-unhooked, step-hooked,
}

-- The interpreter reaches a hook point.
abbrev pub has_hook_point : List Moment → Bool
has_hook_point [] = false
has_hook_point (arrives sig ∷ ms) = has_hook_point ms
has_hook_point (hook_point ∷ ms) = true

-- It does so after a signal.
abbrev pub hook_point_follows : List Moment → Bool
hook_point_follows [] = false
hook_point_follows (arrives sig ∷ ms) = has_hook_point ms
hook_point_follows (hook_point ∷ ms) = hook_point_follows ms

run-unhooked :
    (ms : List Moment) (v : Statics) (runs : ℕ)
    → v.shutdown ≡ true
    → v.hook ≡ false
    → run ms (v, runs) ≡ (v, runs)
unfolding run step
run-unhooked [] v runs down off = refl
run-unhooked (arrives sig ∷ ms) v runs down off =
    ap (λ u. run ms (u, runs)) (signal_handler-down sig v down) ∙ run-unhooked ms v runs down off
run-unhooked (hook_point ∷ ms) v runs down off =
    ap (run ms) (step-unhooked v runs off) ∙ run-unhooked ms v runs down off

-- The cleanup has run, and the hook is gone; or the hook is still set.
abbrev pub Cleaned : Bool → Statics × ℕ → Type 0
Cleaned true r = (r.1 ≡ 1) × (r.0.hook ≡ false)
Cleaned false r = r.1 ≡ 0

run-hooked :
    (ms : List Moment) (v : Statics)
    → v.shutdown ≡ true
    → v.hook ≡ true
    → Cleaned (has_hook_point ms) (run ms (v, 0))
unfolding run step
run-hooked [] v down on = refl
run-hooked (arrives sig ∷ ms) v down on =
    subst (λ u. Cleaned (has_hook_point ms) (run ms (u, 0))) (sym (signal_handler-down sig v down))
      (run-hooked ms v down on)
run-hooked (hook_point ∷ ms) v down on =
    subst (λ s. Cleaned true s)
      (sym (
        ap (run ms) (step-hooked v 0 on) ∙ run-unhooked ms (record v { hook = false }) 1 down refl))
      (refl, refl)

-- From the state that `signal_install` leaves, once a hook point follows a signal, whatever other
-- signals come before, between and after, the cleanup has run, exactly once, and the hook is
-- removed; before that it has not run.
pub run-cleans :
    (ms : List Moment) (v : Statics) → IsQuiet v → Cleaned (hook_point_follows ms) (run ms (v, 0))
unfolding run step
run-cleans [] v q = refl
run-cleans (arrives sig ∷ ms) v q =
    subst (λ u. Cleaned (has_hook_point ms) (run ms (u, 0))) (sym (signal_handler-quiet sig v q))
      (run-hooked ms (record v { shutdown = true; received_first = sig; hook = true }) refl refl)
run-cleans (hook_point ∷ ms) v q =
    subst (λ s. Cleaned (hook_point_follows ms) (run ms s)) (sym (step-unhooked v 0 q.unhooked))
      (run-cleans ms v q)
