-- ===== src/Local/StringList.antt =====
-- local/sl.lua: a list of strings without repetitions, which is sorted when it is read. The
-- assertions on the types of arguments are types here. `ipairs` and `pairs` go through the array
-- from its first entry to its last.
pub mod Members
pub mod Commands
pub mod Copies
use e2factory.Common.{
  ℕ, ◌==◌, Bool, true, false, ◌||◌, Option, none, some, List, [], ◌∷◌, ◌++◌, Bytes, length,
  bytes_eq, if◌then◌else◌,
}
use e2factory.Common.Sorting.{member, table_sort}

pub record StringList : Type 0 where
  pub list : List Bytes
  pub need_sort : Bool

unfoldable pub initialize : StringList
initialize = record { list = []; need_sort = false }

unfoldable pub sort_if_needed : StringList → StringList
sort_if_needed s = if s.need_sort then record { list = table_sort s.list; need_sort = false } else s

unfoldable pub lookup : StringList → Bytes → Bool
lookup s entry = member entry s.list

unfoldable pub insert : StringList → Bytes → StringList
unfolding lookup
insert s entry =
    if lookup s entry then s else record { list = s.list ++ entry ∷ []; need_sort = true }

unfoldable pub insert_table : StringList → List Bytes → StringList
insert_table s [] = s
insert_table s (e ∷ entries) = insert_table (insert s e) entries

unfoldable pub insert_sl : StringList → StringList → StringList
unfolding insert_table
insert_sl s other = insert_table s other.list

-- The loop of `remove`: what it leaves of the list, and whether it removed an entry.
unfoldable pub remove_from : List Bytes → Bytes → List Bytes × Bool
remove_from [] entry = ([], false)
remove_from (x ∷ xs) entry =
    let (rest, changed) = remove_from xs entry in
    if bytes_eq x entry then (rest, true) else (x ∷ rest, changed)

unfoldable pub remove : StringList → Bytes → StringList × Bool
unfolding remove_from
remove s entry =
    let (list, changed) = remove_from s.list entry in
    (record { list = list; need_sort = s.need_sort || changed }, changed)

unfoldable pub size : StringList → ℕ
size s = length s.list

-- The entries in order, with the list as reading them leaves it.
unfoldable pub totable : StringList → List Bytes × StringList
unfolding sort_if_needed
totable s = let sorted = sort_if_needed s in (sorted.list, sorted)

-- `none`: the assertion on the sizes fails.
unfoldable pub copy : StringList → Option StringList
unfolding insert_table size
copy s = let c = insert_table initialize s.list in if size s == size c then some c else none

-- The loop of `concat` behind the first entry.
unfoldable pub cat_with : Bytes → Bytes → List Bytes → Bytes
cat_with sep cat [] = cat
cat_with sep cat (e ∷ entries) = cat_with sep (cat ++ sep ++ e) entries

unfoldable pub joined : Bytes → List Bytes → Bytes
unfolding cat_with
joined sep [] = []
joined sep (e ∷ entries) = cat_with sep e entries

unfoldable pub concat : StringList → Bytes → Bytes × StringList
unfolding totable joined
concat s sep = let (entries, sorted) = totable s in (joined sep entries, sorted)
