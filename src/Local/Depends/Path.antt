-- ===== src/Local/Depends/Path.antt =====
-- local/e2tool.lua: the path of `visit` and the list that it builds grow at the end.
use e2factory.Common.{
  ℕ, zero, suc, ◌-◌, ◌≡◌, refl, ap, true, List, [], ◌∷◌, ◌++◌, Bytes, length, drop, take, arith,
  append_assoc, append-nil, take-append_exact, length-append,
}
use e2factory.Common.Sorting.{member}
use e2factory.Local.Tables.{Table}
use e2factory.Local.StringList.{StringList}
use e2factory.Local.Depends.Spec.{Depends, LinkedFrom, Linked, Ordered}

module _ (results : Table StringList) where
  LinkedFrom-extend :
      (x : Bytes) (p : List Bytes) (n d : Bytes)
      → LinkedFrom results x (p ++ n ∷ [])
      → Depends results n d
      → LinkedFrom results x ((p ++ n ∷ []) ++ d ∷ [])
  LinkedFrom-extend x [] n d (first, rest) next = (first, (next, tt))
  LinkedFrom-extend x (y ∷ p) n d (first, rest) next = (first, LinkedFrom-extend y p n d rest next)

  pub Linked-extend :
      (p : List Bytes) (n d : Bytes)
      → Linked results (p ++ n ∷ [])
      → Depends results n d
      → Linked results ((p ++ n ∷ []) ++ d ∷ [])
  Linked-extend [] n d links next = (next, tt)
  Linked-extend (x ∷ p) n d links next = LinkedFrom-extend x p n d links next

  LinkedFrom-Linked : (x : Bytes) (p : List Bytes) → LinkedFrom results x p → Linked results p
  LinkedFrom-Linked x [] links = tt
  LinkedFrom-Linked x (y ∷ p) (first, rest) = rest

  pub Linked-drop : (k : ℕ) (p : List Bytes) → Linked results p → Linked results (drop k p)
  Linked-drop zero p links = links
  Linked-drop (suc k) [] links = tt
  Linked-drop (suc k) (x ∷ p) links = Linked-drop k p (LinkedFrom-Linked x p links)

  pub Ordered-concat :
      (before t : List Bytes) (x : Bytes)
      → Ordered results before t
      → ((d : Bytes) → Depends results x d → member d (before ++ t) ≡ true)
      → Ordered results before (t ++ x ∷ [])
  Ordered-concat before [] x o deps = (λ d m. rw append-nil at (deps d m), tt)
  Ordered-concat before (y ∷ t) x (first, rest) deps = (
    first,
    Ordered-concat (before ++ y ∷ []) t x rest
        λ d m. rw (append_assoc before (y ∷ []) t) (deps d m),
  )

pub drop-concat :
    (k : ℕ) (p : List Bytes) (x n : Bytes) (rest : List Bytes)
    → drop k p ≡ x ∷ rest
    → drop k (p ++ n ∷ []) ≡ x ∷ rest ++ n ∷ []
drop-concat zero p x n rest e = ap (λ q. q ++ n ∷ []) e
drop-concat (suc k) [] x n rest e = cc
drop-concat (suc k) (y ∷ p) x n rest e = drop-concat k p x n rest e

pub drop-length : (p : List Bytes) (n : Bytes) → drop (length p) (p ++ n ∷ []) ≡ n ∷ []
drop-length [] n = refl
drop-length (x ∷ p) n = drop-length p n

pub take-concat : (p : List Bytes) (n : Bytes) → take (length (p ++ n ∷ []) - 1) (p ++ n ∷ []) ≡ p
take-concat p n = take-append_exact _ p (n ∷ []) (omega (arith, length-append p (n ∷ [])))
