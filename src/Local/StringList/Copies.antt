-- ===== src/Local/StringList/Copies.antt =====
-- local/sl.lua: `copy`, whose assertion on the sizes never fails.
use e2factory.Common.{
  ◌+◌, ◌≡◌, refl, true, false, some, List, [], ◌∷◌, Bytes, length, length-append, arith, fun_ext,
}
use e2factory.Common.Sorting.{member, member-bytes_eq, bytes_eq_refl, Distinct}
use e2factory.Local.StringList.{
  StringList, initialize, lookup, insert, insert_table, size, totable, copy,
}
use e2factory.Local.StringList.Members.{lookup-insert}
use e2factory.Local.StringList.Commands.{
  Command, add_all, made, made-IsValid, made-canonical, lookup-made,
}

size-insert : (s : StringList) (e : Bytes) → lookup s e ≡ false → size (insert s e) ≡ size s + 1
unfolding size insert
size-insert s e new = rw new (omega (arith, length-append s.list (e ∷ [])))

size-insert_table :
    (es : List Bytes) (s : StringList)
    → Distinct es
    → ((x : Bytes) → member x es ≡ true → lookup s x ≡ false)
    → size (insert_table s es) ≡ size s + length es
unfolding insert_table member
size-insert_table [] s d new = omega arith
size-insert_table (e ∷ es) s (later, d) new =
    let here = size-insert s e (new e (ground (arith, bytes_eq_refl e))) in
    let rest =
      size-insert_table es (insert s e) d
        λ x m. ground (arith, m, new x, later, lookup-insert s e x, member-bytes_eq e x es) in
    omega (arith, here, rest)

-- `copy` of a list that was made by operations never fails its assertion, and the copy reads the
-- same.
pub copy-made :
    (cs : List Command)
    → (c : StringList) × (copy (made cs) ≡ some c) × ((totable c).0 ≡ (totable (made cs)).0)
unfolding copy initialize size lookup member
copy-made cs =
    let s = made cs in
    let c = insert_table initialize s.list in
    let sizes = size-insert_table s.list initialize (made-IsValid cs).distinct (λ x m. refl) in
    let same = fun_ext (lookup-made cs) in
    (c, ground (arith, sizes), (made-canonical (add_all s.list ∷ []) cs [] same).0)
