-- ===== src/Tests/Builds.antt =====
-- The theorems on local/, on small projects.
use e2factory.Common.{
  ℕ, fun_ext, bytes_eq_iff, ap, sym, ◌∙◌, subst, ◌≡◌, ◌≢◌, refl, true, false, none, List, [], ◌∷◌,
  ◌++◌, Bytes, codes, arith, length, replicate, bytes_eq,
}
use e2factory.Common.Sorting.{table_sort, insert, member, bytes_le, bytes_eq_refl}
use e2factory.Sha.Sha1.{Context, initial}
use e2factory.Sha.Sha1.Final.{hex_of}
use e2factory.Sha.Sha1.Final.Digest.{sha1}
use e2factory.Sha.Lsha.{done}
use e2factory.Local.StringList.{
  StringList, initialize, insert_table, totable, copy, concat, lookup, sort_if_needed,
}
use e2factory.Local.StringList as SL
use e2factory.Local.StringList.Commands.{
  Command, add, add_all, delete, read, made, run_set, lookup-made, made-canonical,
}
use e2factory.Local.Hash.Digest.{Call, append, line}
use e2factory.Local.Tables.{Table, get, is_nil, keys}
use e2factory.Local.Environment.{Environment, envid}
use e2factory.Local.Environment.Laws.{value, or_else}
use e2factory.Local.Environment.Identity.{
  single, pairs_text, envid-sha1, envid-canonical, envid-collides,
}
use e2factory.Local.Result.{Inputs, merged_env, last_value, merged_env-precedence}
use e2factory.Local.Depends.{ok, cyclic, dlist_recursive, dsort, verify_src_res_name_valid_chars}
use e2factory.Local.Depends.Spec.{Depends, Needed, selected, indirect, IsCycle, Linked, LinkedFrom}
use e2factory.Local.Depends.Order.{Answered, IsOrder}
use e2factory.Local.Depends.Results.{dlist_recursive-Answered, dsort-returns}

abbrev message : ℕ → Bytes
message i = codes "luaL_argerror"

abbrev memory : Context
memory = record { state = initial; count0 = 5; count1 = 7; buffer = replicate 64 9 }

-- Insert two, remove one, insert a third.
abbrev some_commands : List Command
some_commands = add (codes "b") ∷ add (codes "c") ∷ delete (codes "b") ∷ add (codes "a") ∷ []

abbrev other_commands : List Command
other_commands = add_all (codes "a" ∷ codes "c" ∷ codes "a" ∷ []) ∷ read ∷ []

-- "ac"
concat_run : (concat (made some_commands) []).0 ≡ codes "ac"
unfolding concat initialize SL.insert SL.remove insert bytes_eq member table_sort bytes_le
concat_run = refl

abbrev list_of : List Bytes → StringList
list_of names = record { list = names; need_sort = true }

-- `app` needs `lib` and `base`, and `lib` needs `base`.
abbrev project : Table StringList
project =
    (codes "app", list_of (codes "lib" ∷ codes "base" ∷ []))
    ∷ (codes "base", list_of [])
    ∷ (codes "lib", list_of (codes "base" ∷ []))
    ∷ []

dlist_run :
    dlist_recursive project (codes "app" ∷ []) ≡ ok (codes "base" ∷ codes "lib" ∷ codes "app" ∷ [])
unfolding dlist_recursive initialize SL.insert totable insert_table member table_sort
    verify_src_res_name_valid_chars is_nil get bytes_eq bytes_le
dlist_run = refl

abbrev circular : Table StringList
circular =
    (codes "app", list_of (codes "lib" ∷ [])) ∷ (codes "lib", list_of (codes "lib" ∷ [])) ∷ []

circular_run : dlist_recursive circular (codes "app" ∷ []) ≡ cyclic (codes "lib" ∷ codes "lib" ∷ [])
unfolding dlist_recursive initialize SL.insert totable insert_table member table_sort
    verify_src_res_name_valid_chars is_nil get bytes_eq bytes_le
circular_run = refl

lookup-made_example :
    lookup (made some_commands) (codes "c") ≡ run_set (λ x. false) some_commands (codes "c")
lookup-made_example = lookup-made some_commands (codes "c")

same_set : run_set (λ x. false) some_commands ≡ run_set (λ x. false) other_commands
unfolding member
same_set = fun_ext λ x.
    ground
      (arith, bytes_eq_iff (codes "a") x, bytes_eq_iff (codes "b") x, bytes_eq_iff (codes "c") x)

made-canonical_example :
    ((totable (made some_commands)).0 ≡ (totable (made other_commands)).0)
    × ((concat (made some_commands) (codes " ")).0 ≡ (concat (made other_commands) (codes " ")).0)
made-canonical_example = made-canonical some_commands other_commands (codes " ") same_set

abbrev two_calls : List Call
two_calls = append (codes "a") ∷ line (codes "b") ∷ []

abbrev env_ab : Environment
env_ab = record { seqid = 1; dict = (codes "A", codes "1") ∷ (codes "B", codes "2") ∷ [] }

abbrev env_ba : Environment
env_ba = record { seqid = 2; dict = (codes "B", codes "2") ∷ (codes "A", codes "1") ∷ [] }

same_values : value env_ab ≡ value env_ba
unfolding get
same_values = fun_ext λ x. ground (arith, bytes_eq_iff (codes "A") x, bytes_eq_iff (codes "B") x)

envid-sha1_example :
    envid message
      (codes "assertion failed!")
      (codes "nil")
      memory
      (single 1 (codes "A") (codes "BC"))
    ≡ done (hex_of (sha1 (pairs_text (single 1 (codes "A") (codes "BC")))))
unfolding keys table_sort insert get bytes_eq
envid-sha1_example =
    envid-sha1 message (codes "assertion failed!") (codes "nil") memory
      (single 1 (codes "A") (codes "BC")) refl (omega arith, tt)

envid-canonical_example :
    envid message (codes "assertion failed!") (codes "nil") memory env_ab
    ≡ envid message (codes "assertion failed!") (codes "nil") memory env_ba
unfolding keys member bytes_eq
envid-canonical_example =
    envid-canonical message (codes "assertion failed!") (codes "nil") memory env_ab env_ba
      (refl, (refl, tt)) (refl, (refl, tt)) same_values

envid-collides_example :
    (value (single 1 (codes "A") (codes "BC")) ≢ value (single 2 (codes "AB") (codes "C")))
    × (envid message
          (codes "assertion failed!")
          (codes "nil")
          memory
          (single 1 (codes "A") (codes "BC"))
        ≡ envid message
            (codes "assertion failed!")
            (codes "nil")
            memory
            (single 2 (codes "AB") (codes "C")))
envid-collides_example =
    envid-collides message (codes "assertion failed!") (codes "nil") memory 1 2 (codes "A")
      (codes "B") (codes "C") (λ e. cc)

abbrev inputs : Inputs
inputs = record {
  global_env = env_ab;
  source_env = λ name. single 3 (codes "A") name;
  result_env = single 4 (codes "C") (codes "3");
  own_env = single 5 (codes "C") (codes "4");
  sources_list = list_of (codes "y" ∷ codes "x" ∷ []);
}

merged_env-precedence_example :
    value (merged_env 6 inputs) (codes "A")
    ≡ or_else (value inputs.own_env (codes "A")) (
        or_else (value inputs.result_env (codes "A")) (
          or_else
            (last_value inputs.source_env (totable inputs.sources_list).0 (codes "A"))
            (value inputs.global_env (codes "A"))))
unfolding keys member bytes_eq
merged_env-precedence_example = merged_env-precedence 6 inputs (codes "A") record {
  global = (refl, (refl, tt));
  source = λ name. (refl, tt);
  result = (refl, tt);
  own = (refl, tt);
}

dlist_recursive-Answered_example :
    Answered project
      (codes "app" ∷ [])
      (IsOrder project (codes "app" ∷ []))
      (dlist_recursive project (codes "app" ∷ []))
dlist_recursive-Answered_example = dlist_recursive-Answered project (codes "app" ∷ [])

abbrev pair : Table StringList
pair = (codes "app", list_of (codes "glibc" ∷ [])) ∷ (codes "glibc", list_of []) ∷ []

pair-Depends : (x d : Bytes) → Depends pair x d → (x ≡ codes "app") × (d ≡ codes "glibc")
unfolding get lookup member
pair-Depends x d (deps, at, m) = ground (
  arith,
  at,
  m,
  bytes_eq_iff (codes "app") x,
  bytes_eq_iff (codes "glibc") x,
  bytes_eq_iff (codes "glibc") d,
)

no_more : (x y : Bytes) (rest : List Bytes) → x ≡ codes "glibc" → LinkedFrom pair x (y ∷ rest) → ⊥
no_more x y rest e links = omega (arith, ap length (sym e ∙ (pair-Depends x y links.0).0))

-- `glibc` needs nothing.
pair_acyclic : (c : List Bytes) → ¬ IsCycle pair c
pair_acyclic c (x, [], e, links) =
    let first : Depends pair x x = (subst (Linked pair) e links).0 in
    omega (arith, ap length (sym (pair-Depends x x first).0 ∙ (pair-Depends x x first).1))
pair_acyclic c (x, y ∷ [], e, links) =
    let linked : Linked pair (x ∷ y ∷ x ∷ []) = subst (Linked pair) e links in
    no_more y x [] (pair-Depends x y linked.0).1 linked.1
pair_acyclic c (x, y ∷ z ∷ inner, e, links) =
    let linked : Linked pair (x ∷ y ∷ z ∷ inner ++ x ∷ []) = subst (Linked pair) e links in
    no_more y z (inner ++ x ∷ []) (pair-Depends x y linked.0).1 linked.1

pair_there : (x : Bytes) → Needed pair (codes "app" ∷ []) x → get pair x ≢ none
unfolding get member
pair_there x (selected m) = λ e. ground (arith, e, m, bytes_eq_iff (codes "app") x)
pair_there d (indirect {x = x} need dep) =
    let (from, to) = pair-Depends x d dep in
    λ e. ground (arith, e, to, bytes_eq_iff (codes "glibc") d, bytes_eq_refl d)

dsort-returns_example :
    (t : List Bytes) × (dsort pair (codes "app" ∷ []) ≡ ok t) × IsOrder pair (codes "app" ∷ []) t
unfolding member verify_src_res_name_valid_chars
dsort-returns_example =
    dsort-returns pair (codes "app" ∷ []) pair_acyclic pair_there
      λ x m. ground (arith, m, bytes_eq_iff (codes "app") x)
