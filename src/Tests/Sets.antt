-- ===== src/Tests/Sets.antt =====
-- The theorems on local/e2build.lua, on a project of two results.
use e2factory.Common.{◌≡◌, ◌↔◌, refl, Bool, true, false, List, [], ◌∷◌, Bytes, codes, bytes_eq}
use e2factory.Common.Sorting.{member, table_sort, bytes_le}
use e2factory.Local.Tables.{Table, get, is_nil}
use e2factory.Local.StringList as SL
use e2factory.Local.StringList.{StringList, initialize, insert_table, totable}
use e2factory.Local.Depends.{ok, dlist_recursive, verify_src_res_name_valid_chars}
use e2factory.Local.Depends.Spec.{Needed, Ordered}
use e2factory.Local.Build.{next, skipped, success, Step, build_set}
use e2factory.Local.Build.Sets.{Course, started, build_set_in_order}

abbrev pair : Table StringList
pair =
    (codes "app", record { list = codes "glibc" ∷ []; need_sort = true })
    ∷ (codes "glibc", record { list = []; need_sort = false })
    ∷ []

-- The state is the list of the results whose step ran; one step, then one that is left out.
abbrev steps_of : Bytes → List (Step (List Bytes)) × Bool
steps_of name = (
  record { name = codes "runbuild"; func = λ res w. (skipped, res ∷ w) }
      ∷ record { name = codes "linklast"; func = λ res w. (next, []) }
      ∷ [],
  false,
)

abbrev order : List Bytes
order = codes "glibc" ∷ codes "app" ∷ []

app-order : dlist_recursive pair (codes "app" ∷ []) ≡ ok order
unfolding dlist_recursive initialize SL.insert totable insert_table member table_sort
    verify_src_res_name_valid_chars is_nil get bytes_eq bytes_le
app-order = refl

build_run : build_set steps_of order [] ≡ (success, codes "app" ∷ codes "glibc" ∷ [])
unfolding build_set
build_run = refl

build_set_in_order_example :
    (c : Course steps_of order [] (build_set steps_of order [])) × Ordered pair [] (started c)
    × ((x : Bytes) → (member x order ≡ true) ↔ Needed pair (codes "app" ∷ []) x)
build_set_in_order_example = build_set_in_order pair steps_of (codes "app" ∷ []) order [] app-order
