-- ===== src/Lua/Announced.antt =====
-- How a C function hands its results to Lua: it ends with `return n`, and has pushed `n` values.
use e2factory.Common.{Bool, true, false, List, ◌≡◌, leb, length}
use e2factory.Lua.{Value, Flow, next, returns, raises, replaced, Call, M, call}

abbrev pub announced : {W : Type 0} → Flow (Unit {0}) × Call W → Bool
announced (next a, s) = false
announced (returns n, s) = leb n (length s.pushed)
announced (raises msg, s) = true
announced (replaced, s) = true

-- For all arguments and in every state of the world.
abbrev pub Announced : {W : Type 0} → M W (Unit {0}) → Type 0
Announced {W} m = (args : List Value) (w : W) → announced (call m args w) ≡ true
