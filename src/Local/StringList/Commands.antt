-- ===== src/Local/StringList/Commands.antt =====
-- local/sl.lua: a string list is a finite set of strings, whatever sequence of operations made it,
-- and what is read from it depends on the set alone.
use e2factory.Common.{
  ◌≡◌, refl, sym, ap, ◌∙◌, Bool, false, not, ◌&&◌, ◌||◌, List, [], ◌∷◌, Bytes, bytes_eq, fun_ext,
}
use e2factory.Common.Sorting.{member, Ascending-unique}
use e2factory.Local.StringList.Members.{
  IsValid, lookup-insert, lookup-insert_table, member-remove_from, lookup-sort_if_needed,
  insert-IsValid, insert_table-IsValid, remove-IsValid, sort_if_needed-Sorted,
}
use e2factory.Local.StringList.{
  StringList, initialize, lookup, insert, insert_table, insert_sl, remove, totable, concat, joined,
}

-- The operations that change the list; `read` is `iter`, `totable`, `concat` or `unpack`.
pub data Command : Type 0 where
  add : Bytes → Command
  add_all : List Bytes → Command
  add_list : StringList → Command
  delete : Bytes → Command
  read : Command

abbrev pub apply : StringList → Command → StringList
apply s (add e) = insert s e
apply s (add_all es) = insert_table s es
apply s (add_list t) = insert_sl s t
apply s (delete e) = (remove s e).0
apply s read = (totable s).1

abbrev pub run : StringList → List Command → StringList
run s [] = s
run s (c ∷ cs) = run (apply s c) cs

-- The same on the set of the entries.
abbrev pub apply_set : (Bytes → Bool) → Command → Bytes → Bool
apply_set set (add e) x = bytes_eq e x || set x
apply_set set (add_all es) x = set x || member x es
apply_set set (add_list t) x = set x || lookup t x
apply_set set (delete e) x = not (bytes_eq e x) && set x
apply_set set read x = set x

abbrev pub run_set : (Bytes → Bool) → List Command → Bytes → Bool
run_set set [] = set
run_set set (c ∷ cs) = run_set (apply_set set c) cs

lookup-apply :
    (s : StringList) (c : Command) (x : Bytes) → lookup (apply s c) x ≡ apply_set (lookup s) c x
unfolding insert_sl remove lookup totable
lookup-apply s (add e) x = lookup-insert s e x
lookup-apply s (add_all es) x = lookup-insert_table es s x
lookup-apply s (add_list t) x = lookup-insert_table t.list s x
lookup-apply s (delete e) x = member-remove_from s.list e x
lookup-apply s read x = lookup-sort_if_needed s x

apply-IsValid : (s : StringList) (c : Command) → IsValid s → IsValid (apply s c)
unfolding insert_sl totable
apply-IsValid s (add e) v = insert-IsValid s e v
apply-IsValid s (add_all es) v = insert_table-IsValid es s v
apply-IsValid s (add_list t) v = insert_table-IsValid t.list s v
apply-IsValid s (delete e) v = remove-IsValid s e v
apply-IsValid s read v =
    let (up, distinct) = sort_if_needed-Sorted s v in
    record { distinct = distinct; sorted = λ h. up }

run-IsValid : (cs : List Command) (s : StringList) → IsValid s → IsValid (run s cs)
run-IsValid [] s v = v
run-IsValid (c ∷ cs) s v = run-IsValid cs (apply s c) (apply-IsValid s c v)

abbrev pub made : List Command → StringList
made = run initialize

pub made-IsValid : (cs : List Command) → IsValid (made cs)
unfolding initialize
made-IsValid cs = run-IsValid cs initialize record { distinct = tt; sorted = λ h. tt }

lookup-run : (cs : List Command) (s : StringList) → lookup (run s cs) ≡ run_set (lookup s) cs
lookup-run [] s = refl
lookup-run (c ∷ cs) s =
    lookup-run cs (apply s c) ∙ ap (λ set. run_set set cs) (fun_ext (lookup-apply s c))

-- Whatever sequence of operations made a list, an entry is found exactly if it is in the set that
-- the same operations make of the empty set: what was inserted and not removed since.
pub lookup-made : (cs : List Command) (x : Bytes) → lookup (made cs) x ≡ run_set (λ _. false) cs x
unfolding initialize lookup member
lookup-made cs x = ap (λ set. set x) (lookup-run cs initialize)

-- Two lists that were made by sequences of operations with the same set, in whatever order, read
-- the same: as a table and joined by any separator.
pub made-canonical :
    (cs ds : List Command) (sep : Bytes)
    → run_set (λ _. false) cs ≡ run_set (λ _. false) ds
    → ((totable (made cs)).0 ≡ (totable (made ds)).0)
      × ((concat (made cs) sep).0 ≡ (concat (made ds) sep).0)
unfolding totable concat lookup
made-canonical cs ds sep same =
    let (up_c, distinct_c) = sort_if_needed-Sorted (made cs) (made-IsValid cs) in
    let (up_d, distinct_d) = sort_if_needed-Sorted (made ds) (made-IsValid ds) in
    let tables = Ascending-unique _ _ up_c up_d distinct_c distinct_d λ z.
      lookup-sort_if_needed (made cs) z
      ∙ lookup-made cs z
      ∙ ap (λ set. set z) same
      ∙ sym (lookup-made ds z)
      ∙ sym (lookup-sort_if_needed (made ds) z) in
    (tables, ap (joined sep) tables)
