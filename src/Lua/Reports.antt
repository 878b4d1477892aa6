-- ===== src/Lua/Reports.antt =====
-- How the bindings in generic/*.c report a failure to their Lua callers: `false`, then a message,
-- and in some the error number.
use e2factory.Common.{Bool, true, false, List, [], ◌∷◌, ◌≡◌}
use e2factory.Lua.{Value, boolean, string, number, Outcome, values, M, call, outcome}

abbrev pub has_reason : List Value → Bool
has_reason (string msg ∷ []) = true
has_reason (string msg ∷ number e ∷ []) = true
has_reason _ = false

-- Where the first value is `false`, the reason follows.
abbrev pub reports : Outcome → Bool
reports (values (boolean false ∷ rest)) = has_reason rest
reports _ = true

-- A binding that reports, for all arguments and in every state of the world.
abbrev pub Reports : {W : Type 0} → M W (Unit {0}) → Type 0
Reports {W} m = (args : List Value) (w : W) → reports (outcome (call m args w)) ≡ true
