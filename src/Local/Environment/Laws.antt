-- ===== src/Local/Environment/Laws.antt =====
-- local/environment.lua: what `set`, `merge` and `get_dict` leave in the table, and the order of
-- `iter`.
use e2factory.Common.{
  ◌≡◌, refl, sym, ap, ◌∙◌, Bool, true, false, not, ◌||◌, Option, none, some, List, [], ◌∷◌, Bytes,
  bytes_eq, bytes_eq_iff, if◌then◌else◌, arith, map, inl, inr, Bool-cases, fun_ext, ap₂,
}
use e2factory.Common.Sorting.{
  member, table_sort, member-table_sort, table_sort-Ascending, table_sort-Distinct,
  Ascending-unique,
}
use e2factory.Local.Tables.{
  Dict, get, put, keys, is_nil, IsTable, get-put, put-IsTable, member-keys, is_nil-none,
}
use e2factory.Local.Environment.{
  Environment, new, merge_from, merge, iter, assign, copied, get_dict,
}

abbrev pub or_else : Option Bytes → Option Bytes → Option Bytes
or_else none other = other
or_else (some val) other = some val

-- The value of a variable.
abbrev pub value : Environment → Bytes → Option Bytes
value env = get env.dict

get-absent : (dict : Dict) (x : Bytes) → member x (keys dict) ≡ false → get dict x ≡ none
get-absent dict x h = is_nil-none (get dict x) (ground (arith, h, member-keys dict x))

get-absent_same :
    (dict : Dict) (k x : Bytes)
    → member k (keys dict) ≡ false
    → bytes_eq k x ≡ true
    → get dict x ≡ none
get-absent_same dict k x new same =
    ap (get dict) (sym ((bytes_eq_iff k x).0 same)) ∙ get-absent dict k new

-- One round of `merge`.
merge_pair : Dict → Bytes → Bytes → Bool → Dict
merge_pair dict k v override = if is_nil (get dict k) || override then put dict k v else dict

or_else-none : (a : Option Bytes) → or_else a none ≡ a
or_else-none none = refl
or_else-none (some v) = refl

or_else_idem : (a b : Option Bytes) → or_else a (or_else a b) ≡ or_else a b
or_else_idem none b = refl
or_else_idem (some v) b = refl

get-same : (dict : Dict) (k x : Bytes) → bytes_eq k x ≡ true → get dict k ≡ get dict x
get-same dict k x same = ap (get dict) ((bytes_eq_iff k x).0 same)

get-merge_pair :
    (dict : Dict) (k v : Bytes) (override : Bool) (x : Bytes)
    → get (merge_pair dict k v override) x ≡ (
        if bytes_eq k x
        then (if override then some v else or_else (get dict x) (some v))
        else get dict x)
unfolding merge_pair is_nil
get-merge_pair dict k v override x = ground (arith, get-put dict k v x, get-same dict k x)

get-merge_from :
    (other dict : Dict) (override : Bool) (x : Bytes)
    → IsTable other
    → get (merge_from dict other override) x ≡ (
        if override then or_else (get other x) (get dict x) else or_else (get dict x) (get other x))
unfolding merge_from get keys merge_pair
get-merge_from [] dict override x t = ground (arith, or_else-none (get dict x))
get-merge_from ((k, v) ∷ rest) dict override x (new, t) = ground (
  arith,
  get-merge_from rest (merge_pair dict k v override) override x t,
  get-merge_pair dict k v override x,
  get-absent_same rest k x new,
  or_else-none (get dict x),
)

merge_from-IsTable :
    (other dict : Dict) (override : Bool) → IsTable dict → IsTable (merge_from dict other override)
unfolding merge_from
merge_from-IsTable [] dict override t = t
merge_from-IsTable ((k, v) ∷ rest) dict override t =
    merge_from-IsTable rest _ override (elim (Bool-cases (is_nil (get dict k) || override)) [
      | inl over ↦ rw over (put-IsTable dict k v t)
      | inr kept ↦ rw kept t
    ])

-- `merge` gives a variable the value of the environment that goes first, or else of the other.
pub value-merge :
    (env other : Environment) (override : Bool) (x : Bytes)
    → IsTable other.dict
    → value (merge env other override) x ≡ (
        if override
        then or_else (value other x) (value env x)
        else or_else (value env x) (value other x))
unfolding merge
value-merge env other override x t = get-merge_from other.dict env.dict override x t

pub merge-IsTable :
    (env other : Environment) (override : Bool)
    → IsTable env.dict
    → IsTable (merge env other override).dict
unfolding merge
merge-IsTable env other override t = merge_from-IsTable other.dict env.dict override t

-- The iterator goes through the keys in order, each with its value: two tables that hold the same
-- are read the same, whatever the order of their pairs.
pub iter-canonical :
    (a b : Environment) → IsTable a.dict → IsTable b.dict → value a ≡ value b → iter a ≡ iter b
unfolding iter
iter-canonical a b ta tb same =
    let sorted =
      Ascending-unique _ _ (table_sort-Ascending (keys a.dict)) (table_sort-Ascending (keys b.dict))
        (table_sort-Distinct (keys a.dict) ta) (table_sort-Distinct (keys b.dict) tb)
        λ z.
          member-table_sort z (keys a.dict)
          ∙ member-keys a.dict z
          ∙ ap (λ get. not (is_nil (get z))) same
          ∙ sym (member-keys b.dict z)
          ∙ sym (member-table_sort z (keys b.dict)) in
    ap₂ (λ (get : Bytes → Option Bytes) vars. map (λ var. (var, get var)) vars) same sorted

get-assign :
    (dict : Dict) (var : Bytes) (val : Option Bytes) (x : Bytes)
    → get (assign dict var val) x
      ≡ (if bytes_eq var x then or_else val (get dict x) else get dict x)
unfolding assign
get-assign dict var none x = ground arith
get-assign dict var (some v) x = get-put dict var v x

get-copied :
    (vars : List Bytes) (dict of : Dict) (x : Bytes)
    → get (copied dict (map (λ var. (var, get of var)) vars)) x
      ≡ or_else (if member x vars then get of x else none) (get dict x)
unfolding copied member
get-copied [] dict of x = refl
get-copied (var ∷ vars) dict of x = ground (
  arith,
  get-copied vars (assign dict var (get of var)) of x,
  get-assign dict var (get of var) x,
  get-same of var x,
  or_else_idem (get of x) (get dict x),
)

-- `get_dict` copies: the new table holds what the environment's table holds.
pub get_dict-copy : (env : Environment) → get (get_dict env) ≡ value env
unfolding get_dict iter is_nil get
get_dict-copy env = fun_ext λ x. ground (
  arith,
  get-copied (table_sort (keys env.dict)) [] env.dict x,
  member-table_sort x (keys env.dict),
  member-keys env.dict x,
  or_else-none (value env x),
)
