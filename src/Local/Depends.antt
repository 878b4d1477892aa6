-- ===== src/Local/Depends.antt =====
-- local/e2tool.lua: the order in which results are built, `dlist_recursive` and `dsort`, and the
-- names of results. A table from names to positions or marks is a function here.
pub mod Names
pub mod Spec
pub mod Path
pub mod Pigeonhole
pub mod Visit
pub mod Order
pub mod Results
use e2factory.Common.{
  ℕ, zero, suc, ◌+◌, ◌-◌, Bool, true, false, ◌&&◌, ◌||◌, ◌==◌, leb, Option, none, some, List, [],
  ◌∷◌, ◌++◌, Bytes, length, drop, take, bytes_eq, if◌then◌else◌,
}
use e2factory.Local.Tables.{Table, get, is_nil}
use e2factory.Local.StringList.{StringList, initialize, insert_table, totable}

-- The characters of the pattern: letters, digits, `-`, `_` and `.`.
unfoldable pub is_name_char : ℕ → Bool
is_name_char c =
    c == b'-'
    || c == b'_'
    || c == b'.'
    || leb b'0' c && leb c b'9'
    || leb b'a' c && leb c b'z'
    || leb b'A' c && leb c b'Z'

unfoldable pub all_name_chars : Bytes → Bool
unfolding is_name_char
all_name_chars [] = true
all_name_chars (c ∷ name) = is_name_char c && all_name_chars name

unfoldable pub verify_src_res_name_valid_chars : Bytes → Bool
unfolding all_name_chars
verify_src_res_name_valid_chars [] = false
verify_src_res_name_valid_chars (c ∷ name) = all_name_chars (c ∷ name)

-- `name:gsub(old, new)` for a pattern of one character
unfoldable pub gsub_char : ℕ → ℕ → Bytes → Bytes
gsub_char old new [] = []
gsub_char old new (c ∷ text) = (if c == old then new else c) ∷ gsub_char old new text

unfoldable pub src_res_name_to_path : Bytes → Bytes
unfolding gsub_char
src_res_name_to_path name = gsub_char b'.' b'/' name

unfoldable pub src_res_path_to_name : Bytes → Bytes
unfolding gsub_char
src_res_path_to_name pathname = gsub_char b'/' b'.' pathname

-- The upvalues of `visit`: positions on the path, the path, the marks, and the list that is built.
pub record Walk : Type 0 where
  pub seen : Bytes → Option ℕ
  pub path : List Bytes
  pub col : Bytes → Bool
  pub t : List Bytes

abbrev pub update {ℓ} : {V : Type ℓ} → (Bytes → V) → Bytes → V → Bytes → V
update map key val x = if bytes_eq key x then val else map x

-- `ok`, the errors that are returned, and `raised` where a dependency that is no result is indexed.
pub data Outcome {ℓ} (A : Type ℓ) : Type ℓ where
  ok : A → Outcome A
  cyclic : List Bytes → Outcome A
  invalid_name invalid_result raised : Bytes → Outcome A
  out_of_fuel : Outcome A

infixl 5 ◌>>=◌
abbrev pub ◌>>=◌ : {A B : Type 0} → Outcome A → (A → Outcome B) → Outcome B
ok a >>= f = f a
cyclic path >>= f = cyclic path
invalid_name name >>= f = invalid_name name
invalid_result name >>= f = invalid_result name
raised name >>= f = raised name
out_of_fuel >>= f = out_of_fuel

-- A loop that visits one name after the other.
unfoldable pub each : (Walk → Bytes → Outcome Walk) → Walk → List Bytes → Outcome Walk
each visit w [] = ok w
each visit w (name ∷ names) = visit w name >>= λ next. each visit next names

unfoldable pub enter : Walk → Bytes → Walk
enter w name = record w {
  path = w.path ++ name ∷ [];
  seen = update w.seen name (some (length w.path + 1));
  col = update w.col name true;
}

-- `table.remove(path)` takes the last entry.
unfoldable pub leave : Walk → Bytes → Walk
leave w name = record w {
  t = w.t ++ name ∷ [];
  path = take (length w.path - 1) w.path;
  seen = update w.seen name none;
}

-- `results` holds what `depends_list` of each result returns.
module _ (results : Table StringList) where
  unfoldable pub visit : ℕ → Walk → Bytes → Outcome Walk
  unfolding each enter leave
  visit zero w name = out_of_fuel
  visit (suc fuel) w name = elim (w.seen name) [
    | some pos ↦ cyclic (drop (pos - 1) w.path ++ name ∷ [])
    | none ↦ elim (w.col name) [
      | true ↦ ok w
      | false ↦ elim (get results name) [
        | none ↦ raised name
        | some deps ↦
            each (visit fuel) (enter w name) (totable deps).0 >>= λ next. ok (leave next name)
      ]
    ]
  ]

  -- The body of the loop of `dlist_recursive`.
  unfoldable pub select : ℕ → Walk → Bytes → Outcome Walk
  unfolding visit
  select fuel w name =
      if verify_src_res_name_valid_chars name
      then (if is_nil (get results name) then invalid_result name else visit fuel w name)
      else invalid_name name

  unfoldable pub start : Walk
  start = record { seen = λ x. none; path = []; col = λ x. false; t = [] }

  -- Of each result at most one visit is under way: one more level sees the last dependency.
  unfoldable pub dlist_from : List Bytes → Outcome (List Bytes)
  unfolding each select start
  dlist_from names = each (select (length results + 1)) start names >>= λ w. ok w.t

  -- For a vector of names.
  unfoldable pub dlist_recursive : List Bytes → Outcome (List Bytes)
  unfolding dlist_from
  dlist_recursive resultv = dlist_from (totable (insert_table initialize resultv)).0

  -- For the name of a result: its dependencies, without itself.
  unfoldable pub dlist_recursive_name : Bytes → Outcome (List Bytes)
  unfolding dlist_from
  dlist_recursive_name name = elim (get results name) [
    | none ↦ raised name
    | some deps ↦ dlist_from (totable deps).0
  ]

  -- The default results of the project.
  unfoldable pub dsort : List Bytes → Outcome (List Bytes)
  dsort default_results = dlist_recursive default_results
