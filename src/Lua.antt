-- ===== src/Lua.antt =====
-- The C interface of Lua, as the bindings in generic/*.c use it: values, the stack of one call,
-- early returns and raised errors. The conversions of arguments are Lua's own and a parameter.
pub mod Reports
pub mod Announced
use e2factory.Common.{
  ℕ, zero, suc, ◌+◌, ◌-◌, Bool, true, false, Option, none, some, List, [], ◌∷◌, ◌++◌, reverse,
  Bytes, String, codes, ℤ, pos, length, take, get_elem?, if◌then◌else◌, ltb,
}

mutual
  -- A number is an integer here: the bindings exchange no others.
  pub data Value : Type 0 where
    nil : Value
    boolean : Bool → Value
    number : ℤ → Value
    string : Bytes → Value
    lightuserdata : ℕ → Value
    userdata : ℕ → Value
    table : Fields → Value

  -- The pairs of a table, in the order in which they were set.
  pub data Fields : Type 0 where
    end : Fields
    field : Value → Value → Fields → Fields

-- Lua's reading of an argument; the argument is `none` when the call has fewer of them. The checks
-- answer `none` where they raise an error.
pub record Api : Type 0 where
  pub checkstring : Option Value → Option Bytes
  pub checkinteger : Option Value → Option ℤ
  pub tolstring : Option Value → Option Bytes
  pub tointeger : Option Value → ℤ
  pub toboolean : Option Value → Bool
  pub touserdata : Option Value → Option ℕ
  pub argerror : ℕ → Bytes → Bytes
  -- The same for the index -1.
  pub argerror_top : Bytes → Bytes
  -- `%d` of `lua_pushfstring`
  pub format_int : ℤ → Bytes
  -- The values at the keys 1, 2, … up to the first nil; `none` for what is no table.
  pub sequence : Option Value → Option (List Value)
  -- `lua_objlen`
  pub objlen : Value → ℕ
  -- `lua_isnumber`
  pub isnumber : Option Value → Bool
  -- `lua_gettable` with the key "handle".
  pub handle_of : Fields → Value
  -- `luaL_checkudata` with LUA_FILEHANDLE; the FILE is `none` once it was closed.
  pub checkfilehandle : Option Value → Option (Option ℕ)

-- The stack of a call: the arguments, and what was pushed on them, the top first. `world` is all
-- that lies outside Lua.
pub record Call (W : Type 0) : Type 0 where
  pub args : List Value
  pub pushed : List Value
  pub world : W

-- How a step of a C function leaves: on to the next one with a value, by `return n`, or by an
-- error, or never, when another program has replaced the process.
pub data Flow (A : Type 0) : Type 0 where
  next : A → Flow A
  returns : ℕ → Flow A
  raises : Bytes → Flow A
  replaced : Flow A

-- What the caller gets.
pub data Outcome : Type 0 where
  values : List Value → Outcome
  error : Bytes → Outcome
  no_return : Outcome

abbrev pub M : Type 0 → Type 0 → Type 0
M W A = Call W → Flow A × Call W

module _ {W : Type 0} where
  abbrev pub pure : {A : Type 0} → A → M W A
  pure a s = (next a, s)

  abbrev pub then_do : {A B : Type 0} → Flow A → (A → M W B) → M W B
  then_do (next a) f s = f a s
  then_do (returns n) f s = (returns n, s)
  then_do (raises msg) f s = (raises msg, s)
  then_do replaced f s = (replaced, s)

  infixl 5 ◌>>=◌ ◌>>◌
  abbrev pub ◌>>=◌ : {A B : Type 0} → M W A → (A → M W B) → M W B
  ◌>>=◌ m f s = then_do (m s).0 f (m s).1

  abbrev pub ◌>>◌ : {B : Type 0} → M W (Unit {0}) → M W B → M W B
  m >> k = m >>= λ _. k

  -- `return n;`
  abbrev pub return : {A : Type 0} → ℕ → M W A
  return n s = (returns n, s)

  -- `luaL_error`
  abbrev pub lua_l_error : {A : Type 0} → Bytes → M W A
  lua_l_error msg s = (raises msg, s)

  abbrev pub when : Bool → M W (Unit {0}) → M W (Unit {0})
  when b m = if b then m else pure tt

  -- Every `lua_push…`
  abbrev pub push : Value → M W (Unit {0})
  push v s = (next tt, record s { pushed = v ∷ s.pushed })

  abbrev pub gettop : M W ℕ
  gettop s = (next (length s.args + length s.pushed), s)

  -- The value at a positive index.
  abbrev pub at_index : ℕ → M W (Option Value)
  at_index i s = (next (get_elem? (s.args ++ reverse s.pushed) (i - 1)), s)

  -- A call of the world.
  abbrev pub sys : {A : Type 0} → (W → A × W) → M W A
  sys f s = let r = f s.world in (next r.0, record s { world = r.1 })

  -- A reading of the world.
  abbrev pub look : {A : Type 0} → (W → A) → M W A
  look f s = (next (f s.world), s)

  abbrev pub or_argerror : {A : Type 0} → Api → ℕ → String → Option A → M W A
  or_argerror api i what none = lua_l_error (api.argerror i (codes what))
  or_argerror api i what (some a) = pure a

  abbrev pub lua_l_checkstring : Api → ℕ → M W Bytes
  lua_l_checkstring api i = do
    v ← at_index i
    or_argerror api i "string expected" (api.checkstring v)

  abbrev pub lua_l_checkinteger : Api → ℕ → M W ℤ
  lua_l_checkinteger api i = do
    v ← at_index i
    or_argerror api i "number expected" (api.checkinteger v)

  -- `lua_gettop(L) > 1 && lua_toboolean(L, 2)`
  abbrev pub second_flag : Api → M W Bool
  second_flag api = do n ← gettop; v ← at_index 2; pure (if ltb 1 n then api.toboolean v else false)

  -- `lua_pushboolean(L, 0); lua_pushstring(L, msg); return 2;`
  abbrev pub fail_with : {A : Type 0} → Bytes → M W A
  fail_with msg = do push (boolean false); push (string msg); return 2

  -- `lua_pushboolean(L, 1); return 1;`
  abbrev pub return_true : {A : Type 0} → M W A
  return_true = do push (boolean true); return 1

  -- The top `n` values, in the order in which they were pushed.
  abbrev pub outcome : Flow (Unit {0}) × Call W → Outcome
  outcome (next a, s) = values []
  outcome (returns n, s) = values (reverse (take n s.pushed))
  outcome (raises msg, s) = error msg
  outcome (replaced, s) = no_return

  -- A binding called with these arguments.
  abbrev pub call : M W (Unit {0}) → List Value → W → Flow (Unit {0}) × Call W
  call m args w = m (record { args = args; pushed = []; world = w })
