-- ===== src/Local/Tables.antt =====
-- Tables of Lua whose keys are strings, as lists of pairs.
use e2factory.Common.{
  ◌≡◌, refl, Bool, true, false, ◌||◌, Option, none, some, List, [], ◌∷◌, Bytes, bytes_eq,
  bytes_eq_iff, if◌then◌else◌, arith, Bool-cases, inl, inr, not,
}
use e2factory.Common.Sorting.{member, Distinct, bytes_eq_refl, bytes_eq_sym}

abbrev pub Table : Type 0 → Type 0
Table V = List (Bytes × V)

abbrev pub Dict : Type 0
Dict = Table Bytes

-- `dict[key]`
unfoldable pub get : {V : Type 0} → Table V → Bytes → Option V
get [] key = none
get ((k, v) ∷ rest) key = if bytes_eq k key then some v else get rest key

-- `dict[key] = val`
unfoldable pub put : {V : Type 0} → Table V → Bytes → V → Table V
put [] key val = (key, val) ∷ []
put ((k, v) ∷ rest) key val =
    let later = put rest key val in if bytes_eq k key then (k, val) ∷ rest else (k, v) ∷ later

unfoldable pub keys : {V : Type 0} → Table V → List Bytes
keys [] = []
keys ((k, v) ∷ rest) = k ∷ keys rest

-- Each key stands once.
abbrev pub IsTable : {V : Type 0} → Table V → Type 0
IsTable dict = Distinct (keys dict)

pub get-put :
    {V : Type 0} (dict : Table V) (key : Bytes) (val : V) (x : Bytes)
    → get (put dict key val) x ≡ (if bytes_eq key x then some val else get dict x)
unfolding get put
get-put [] key val x = refl
get-put ((k, v) ∷ rest) key val x = ground (
  arith,
  get-put rest key val x,
  bytes_eq_iff k key,
  bytes_eq_iff k x,
  bytes_eq_iff key x,
  bytes_eq_sym key x,
  bytes_eq_refl x,
)

pub member-keys-put :
    {V : Type 0} (dict : Table V) (key : Bytes) (val : V) (x : Bytes)
    → member x (keys (put dict key val)) ≡ bytes_eq key x || member x (keys dict)
unfolding member keys put
member-keys-put [] key val x = refl
member-keys-put ((k, v) ∷ rest) key val x = ground (
  arith,
  member-keys-put rest key val x,
  bytes_eq_iff k key,
  bytes_eq_iff k x,
  bytes_eq_iff key x,
  bytes_eq_sym key x,
)

pub put-IsTable :
    {V : Type 0} (dict : Table V) (key : Bytes) (val : V)
    → IsTable dict
    → IsTable (put dict key val)
unfolding keys put member
put-IsTable [] key val d = (refl, tt)
put-IsTable ((k, v) ∷ rest) key val (new, d) = elim (Bool-cases (bytes_eq k key)) [
  | inl same ↦ rw same (new, d)
  | inr other ↦ rw other (
    ground (arith, new, member-keys-put rest key val k, bytes_eq_sym k key),
    put-IsTable rest key val d,
  )
]

-- `not val`, of what a table holds.
unfoldable pub is_nil : {V : Type 0} → Option V → Bool
is_nil none = true
is_nil (some val) = false

pub member-keys :
    {V : Type 0} (dict : Table V) (x : Bytes) → member x (keys dict) ≡ not (is_nil (get dict x))
unfolding member keys get is_nil
member-keys [] x = refl
member-keys ((k, v) ∷ rest) x = ground (arith, member-keys rest x)

pub is_nil-none : {V : Type 0} (val : Option V) → is_nil val ≡ true → val ≡ none
unfolding is_nil
is_nil-none none h = refl
is_nil-none (some v) h = cc
