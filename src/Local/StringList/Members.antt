-- ===== src/Local/StringList/Members.antt =====
-- local/sl.lua: the entries behind each operation, and the invariant that none stands twice and
-- that a list that needs no sorting is sorted.
use e2factory.Common.{
  ◌≡◌, refl, ap, false, not, ◌&&◌, ◌||◌, List, [], ◌∷◌, Bytes, bytes_eq, bytes_eq_iff, inl, inr,
  Bool-cases, arith,
}
use e2factory.Common.Sorting.{
  member, member-bytes_eq, member-append, member-table_sort, Ascending, Distinct,
  table_sort-Ascending, table_sort-Distinct, bytes_eq_sym, Distinct-concat,
}
use e2factory.Local.StringList.{
  StringList, sort_if_needed, lookup, insert, insert_table, remove_from, remove,
}

pub record IsValid (s : StringList) : Type 0 where
  pub distinct : Distinct s.list
  pub sorted : s.need_sort ≡ false → Ascending s.list

pub lookup-insert :
    (s : StringList) (e x : Bytes) → lookup (insert s e) x ≡ bytes_eq e x || lookup s x
unfolding insert lookup member
lookup-insert s e x = ground (arith, member-append x s.list (e ∷ []), member-bytes_eq e x s.list)

pub lookup-insert_table :
    (es : List Bytes) (s : StringList) (x : Bytes)
    → lookup (insert_table s es) x ≡ lookup s x || member x es
unfolding insert_table member
lookup-insert_table [] s x = ground arith
lookup-insert_table (e ∷ es) s x =
    ground (arith, lookup-insert_table es (insert s e) x, lookup-insert s e x)

pub member-remove_from :
    (xs : List Bytes) (e x : Bytes)
    → member x (remove_from xs e).0 ≡ not (bytes_eq e x) && member x xs
unfolding remove_from member
member-remove_from [] e x = ground arith
member-remove_from (y ∷ xs) e x = elim (Bool-cases (bytes_eq y e)) [
  | inl same ↦ rw same (
      ground (arith, member-remove_from xs e x, ap (λ w. bytes_eq w x) ((bytes_eq_iff y e).0 same)))
  | inr other ↦ rw other (
      ground (
        arith,
        member-remove_from xs e x,
        bytes_eq_iff y e,
        bytes_eq_iff y x,
        bytes_eq_iff e x,
        bytes_eq_sym e x,
        other,
      ))
]

pub changed-remove_from : (xs : List Bytes) (e : Bytes) → (remove_from xs e).1 ≡ member e xs
unfolding remove_from member
changed-remove_from [] e = refl
changed-remove_from (y ∷ xs) e = ground (arith, changed-remove_from xs e)

pub remove_from-Distinct :
    (xs : List Bytes) (e : Bytes) → Distinct xs → Distinct (remove_from xs e).0
unfolding remove_from
remove_from-Distinct [] e d = tt
remove_from-Distinct (y ∷ xs) e (new, rest) = elim (Bool-cases (bytes_eq y e)) [
  | inl same ↦ rw same (remove_from-Distinct xs e rest)
  | inr other ↦
      rw other (ground (arith, new, member-remove_from xs e y), remove_from-Distinct xs e rest)
]

-- A string that is not there leaves the list as it is.
pub remove_from-absent :
    (xs : List Bytes) (e : Bytes) → member e xs ≡ false → (remove_from xs e).0 ≡ xs
unfolding remove_from member
remove_from-absent [] e h = refl
remove_from-absent (y ∷ xs) e h = ground (arith, h, remove_from-absent xs e)

pub insert-IsValid : (s : StringList) (e : Bytes) → IsValid s → IsValid (insert s e)
unfolding insert lookup
insert-IsValid s e v = elim (Bool-cases (member e s.list)) [
  | inl there ↦ rw there v
  | inr new ↦ rw new record { distinct = Distinct-concat s.list e v.distinct new; sorted = λ h. cc }
]

pub insert_table-IsValid :
    (es : List Bytes) (s : StringList) → IsValid s → IsValid (insert_table s es)
unfolding insert_table
insert_table-IsValid [] s v = v
insert_table-IsValid (e ∷ es) s v = insert_table-IsValid es (insert s e) (insert-IsValid s e v)

pub remove-IsValid : (s : StringList) (e : Bytes) → IsValid s → IsValid (remove s e).0
unfolding remove
remove-IsValid s e v = record {
  distinct = remove_from-Distinct s.list e v.distinct;
  sorted = λ h.
      rw (remove_from-absent s.list e (ground (arith, h, changed-remove_from s.list e)))
        (v.sorted (ground (arith, h)));
}

pub sort_if_needed-Sorted :
    (s : StringList)
    → IsValid s
    → Ascending (sort_if_needed s).list × Distinct (sort_if_needed s).list
unfolding sort_if_needed
sort_if_needed-Sorted s v = elim (Bool-cases s.need_sort) [
  | inl due ↦ rw due (table_sort-Ascending s.list, table_sort-Distinct s.list v.distinct)
  | inr done ↦ rw done (v.sorted done, v.distinct)
]

pub lookup-sort_if_needed : (s : StringList) (x : Bytes) → lookup (sort_if_needed s) x ≡ lookup s x
unfolding sort_if_needed lookup
lookup-sort_if_needed s x = ground (arith, member-table_sort x s.list)
