-- ===== src/Local/Depends/Results.antt =====
-- local/e2tool.lua: what a caller of `dlist_recursive` and `dsort` may rely on.
use e2factory.Common.{◌≡◌, ◌≢◌, refl, ◌∙◌, true, none, some, List, Bytes}
use e2factory.Common.Sorting.{member}
use e2factory.Local.Tables.{Table, get}
use e2factory.Local.StringList.{StringList, initialize, insert_table, lookup, totable}
use e2factory.Local.StringList.Members.{lookup-insert_table, lookup-sort_if_needed}
use e2factory.Local.Depends.{
  Outcome, ok, cyclic, invalid_name, invalid_result, raised, out_of_fuel, dlist_recursive,
  dlist_recursive_name, dsort, verify_src_res_name_valid_chars,
}
use e2factory.Local.Depends.Spec.{Needed, selected, IsCycle}
use e2factory.Local.Depends.Order.{Answered, IsOrder, dlist_from-Answered}

module _ (results : Table StringList) where
  -- The vector that `dlist_recursive` returns holds each selected result and each of their indirect
  -- dependencies once, and nothing else, every entry behind all that it depends on. It returns the
  -- error of a cycle only with a path of dependencies that leads from a result back to itself, and
  -- the other errors only for a selected name with a character that is not allowed or that is no
  -- result. An error is raised only for an indirect dependency that is no result, and the levels of
  -- `visit` that the model allows, one more than there are results, are never used up.
  pub dlist_recursive-Answered :
      (resultv : List Bytes)
      → Answered results resultv (IsOrder results resultv) (dlist_recursive results resultv)
  unfolding dlist_recursive totable initialize lookup member
  dlist_recursive-Answered resultv =
      let list = insert_table initialize resultv in
      dlist_from-Answered results resultv (totable list).0
        λ x. lookup-sort_if_needed list x ∙ lookup-insert_table resultv initialize x

  -- For the name of a result the same holds of its dependencies.
  pub dlist_recursive_name-Answered :
      (name : Bytes) (deps : StringList)
      → get results name ≡ some deps
      → Answered results deps.list (IsOrder results deps.list) (dlist_recursive_name results name)
  unfolding dlist_recursive_name totable lookup
  dlist_recursive_name-Answered name deps there =
      rw (there, dlist_recursive_name)
        (dlist_from-Answered results deps.list (totable deps).0 (lookup-sort_if_needed deps))

  returns :
      (resultv : List Bytes) (m : Outcome (List Bytes))
      → Answered results resultv (IsOrder results resultv) m
      → ((c : List Bytes) → ¬ IsCycle results c)
      → ((x : Bytes) → Needed results resultv x → get results x ≢ none)
      → ((x : Bytes) → member x resultv ≡ true → verify_src_res_name_valid_chars x ≡ true)
      → (t : List Bytes) × (m ≡ ok t) × IsOrder results resultv t
  returns resultv (ok t) h acyclic there valid = (t, refl, h)
  returns resultv (cyclic c) h acyclic there valid = absurd (acyclic c h)
  returns resultv (invalid_name x) (m, bad) acyclic there valid = cc (valid x m)
  returns resultv (invalid_result x) (m, bad) acyclic there valid =
      absurd (there x (selected m) bad)
  returns resultv (raised x) (need, bad) acyclic there valid = absurd (there x need bad)
  returns resultv out_of_fuel h acyclic there valid = absurd h

  -- If no result depends on itself, directly or not, all that the default results need are results,
  -- and their names are valid, `dsort` returns an order of them.
  pub dsort-returns :
      (default_results : List Bytes)
      → ((c : List Bytes) → ¬ IsCycle results c)
      → ((x : Bytes) → Needed results default_results x → get results x ≢ none)
      → ((x : Bytes) → member x default_results ≡ true → verify_src_res_name_valid_chars x ≡ true)
      → (t : List Bytes) × (dsort results default_results ≡ ok t)
        × IsOrder results default_results t
  unfolding dsort
  dsort-returns default_results acyclic there valid =
      returns default_results (dlist_recursive results default_results)
        (dlist_recursive-Answered default_results) acyclic there valid
