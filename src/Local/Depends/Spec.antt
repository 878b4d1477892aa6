-- ===== src/Local/Depends/Spec.antt =====
-- local/e2tool.lua: what the order of results is, apart from how it is computed.
use e2factory.Common.{◌≡◌, true, some, List, [], ◌∷◌, ◌++◌, Bytes}
use e2factory.Common.Sorting.{member}
use e2factory.Local.Tables.{Table, get}
use e2factory.Local.StringList.{StringList, lookup}

module _ (results : Table StringList) where
  -- `d` is in the list of dependencies of the result `x`.
  abbrev pub Depends : Bytes → Bytes → Type 0
  Depends x d = (deps : StringList) × (get results x ≡ some deps) × (lookup deps d ≡ true)

  -- What is selected, and all indirect dependencies.
  pub data Needed (roots : List Bytes) : Bytes → Type 0 where
    selected : {x : Bytes} → member x roots ≡ true → Needed roots x
    indirect : {x d : Bytes} → Needed roots x → Depends x d → Needed roots d

  abbrev pub LinkedFrom : Bytes → List Bytes → Type 0
  LinkedFrom x [] = Unit
  LinkedFrom x (y ∷ rest) = Depends x y × LinkedFrom y rest

  -- Each entry depends on the next.
  abbrev pub Linked : List Bytes → Type 0
  Linked [] = Unit
  Linked (x ∷ rest) = LinkedFrom x rest

  -- A path of dependencies from a result back to itself.
  abbrev pub IsCycle : List Bytes → Type 0
  IsCycle c = (x : Bytes) × (inner : List Bytes) × (c ≡ x ∷ inner ++ x ∷ []) × Linked c

  -- The dependencies of each entry stand in front of it.
  abbrev pub Ordered : List Bytes → List Bytes → Type 0
  Ordered before [] = Unit
  Ordered before (x ∷ rest) =
      ((d : Bytes) → Depends x d → member d before ≡ true) × Ordered (before ++ x ∷ []) rest
