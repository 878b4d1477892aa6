-- ===== src/Common/Sorting.antt =====
-- Strings in the order of their bytes, as Lua compares them in the C locale, and `table.sort`.
use e2factory.Common.{
  ◌≡◌, refl, ap, ap₂, ◌∙◌, inl, inr, Bool, true, false, ◌||◌, List, [], ◌∷◌, ◌++◌, Bytes, arith,
  ltb, ◌==◌, if◌then◌else◌, bytes_eq, bytes_eq_iff, Bool-cases,
}

-- `a <= b`
unfoldable pub bytes_le : Bytes → Bytes → Bool
bytes_le [] [] = true
bytes_le [] (y ∷ ys) = true
bytes_le (x ∷ xs) [] = false
bytes_le (x ∷ xs) (y ∷ ys) =
    let rest = bytes_le xs ys in if ltb x y then true else if x == y then rest else false

pub bytes_le_total : (a b : Bytes) → bytes_le a b ≡ false → bytes_le b a ≡ true
unfolding bytes_le
bytes_le_total [] [] h = cc
bytes_le_total [] (y ∷ ys) h = cc
bytes_le_total (x ∷ xs) [] h = refl
bytes_le_total (x ∷ xs) (y ∷ ys) h = ground (arith, bytes_le_total xs ys)

pub bytes_le_antisymm : (a b : Bytes) → bytes_le a b ≡ true → bytes_le b a ≡ true → a ≡ b
unfolding bytes_le
bytes_le_antisymm [] [] h k = refl
bytes_le_antisymm [] (y ∷ ys) h k = cc
bytes_le_antisymm (x ∷ xs) [] h k = cc
bytes_le_antisymm (x ∷ xs) (y ∷ ys) h k = ground (arith, bytes_le_antisymm xs ys)

pub bytes_le_trans :
    (a b c : Bytes) → bytes_le a b ≡ true → bytes_le b c ≡ true → bytes_le a c ≡ true
unfolding bytes_le
bytes_le_trans [] b [] h k = refl
bytes_le_trans [] b (z ∷ zs) h k = refl
bytes_le_trans (x ∷ xs) [] c h k = cc
bytes_le_trans (x ∷ xs) (y ∷ ys) [] h k = cc
bytes_le_trans (x ∷ xs) (y ∷ ys) (z ∷ zs) h k = ground (arith, bytes_le_trans xs ys zs)

-- A string among others.
unfoldable pub member : Bytes → List Bytes → Bool
member x [] = false
member x (y ∷ ys) = bytes_eq y x || member x ys

unfoldable pub insert : Bytes → List Bytes → List Bytes
insert x [] = x ∷ []
insert x (y ∷ ys) = let rest = insert x ys in if bytes_le x y then x ∷ y ∷ ys else y ∷ rest

-- `table.sort`: what any sort makes of a list, since the order is total and antisymmetric.
unfoldable pub table_sort : List Bytes → List Bytes
unfolding insert
table_sort [] = []
table_sort (x ∷ xs) = insert x (table_sort xs)

abbrev pub Ascending : List Bytes → Type 0
Ascending [] = Unit
Ascending (x ∷ xs) = ((y : Bytes) → member y xs ≡ true → bytes_le x y ≡ true) × Ascending xs

abbrev pub Distinct : List Bytes → Type 0
Distinct [] = Unit
Distinct (x ∷ xs) = (member x xs ≡ false) × Distinct xs

pub bytes_eq_refl : (a : Bytes) → bytes_eq a a ≡ true
bytes_eq_refl a = (bytes_eq_iff a a).1 refl

pub member-append : (x : Bytes) (a b : List Bytes) → member x (a ++ b) ≡ member x a || member x b
unfolding member
member-append x [] b = refl
member-append x (y ∷ a) b = ground (arith, member-append x a b)

member-insert :
    (z x : Bytes) (ys : List Bytes) → member z (insert x ys) ≡ bytes_eq x z || member z ys
unfolding insert member
member-insert z x [] = refl
member-insert z x (y ∷ ys) = ground (arith, member-insert z x ys)

pub member-table_sort : (z : Bytes) (xs : List Bytes) → member z (table_sort xs) ≡ member z xs
unfolding table_sort member
member-table_sort z [] = refl
member-table_sort z (x ∷ xs) =
    ground (arith, member-insert z x (table_sort xs), member-table_sort z xs)

pub bytes_eq_sym : (a b : Bytes) → bytes_eq a b ≡ bytes_eq b a
bytes_eq_sym a b = ground (arith, bytes_eq_iff a b, bytes_eq_iff b a)

pub member-bytes_eq :
    (x y : Bytes) (ys : List Bytes) → bytes_eq x y ≡ true → member x ys ≡ member y ys
member-bytes_eq x y ys h = ap (λ z. member z ys) ((bytes_eq_iff x y).0 h)

-- `x` is at most each of `ys`, and so is what is below `x`.
insert-Ascending : (x : Bytes) (ys : List Bytes) → Ascending ys → Ascending (insert x ys)
unfolding insert member
insert-Ascending x [] h = (λ y m. cc, tt)
insert-Ascending x (y ∷ ys) (least, rest) = elim (Bool-cases (bytes_le x y)) [
  | inl below ↦ rw below (
    λ z m. ground (arith, m, (bytes_eq_iff y z).0, least z, bytes_le_trans x y z below),
    (least, rest),
  )
  | inr above ↦ rw above (
    λ z m.
        ground
          (arith, m, member-insert z x ys, (bytes_eq_iff x z).0, least z, bytes_le_total x y above),
    insert-Ascending x ys rest,
  )
]

insert-Distinct :
    (x : Bytes) (ys : List Bytes) → member x ys ≡ false → Distinct ys → Distinct (insert x ys)
unfolding insert member
insert-Distinct x [] h d = (refl, tt)
insert-Distinct x (y ∷ ys) h (new, rest) = elim (Bool-cases (bytes_le x y)) [
  | inl below ↦ rw below (h, (new, rest))
  | inr above ↦ rw above (
    ground (arith, h, new, member-insert y x ys, bytes_eq_sym x y),
    insert-Distinct x ys (ground (arith, h)) rest,
  )
]

pub table_sort-Ascending : (xs : List Bytes) → Ascending (table_sort xs)
unfolding table_sort
table_sort-Ascending [] = tt
table_sort-Ascending (x ∷ xs) = insert-Ascending x (table_sort xs) (table_sort-Ascending xs)

pub table_sort-Distinct : (xs : List Bytes) → Distinct xs → Distinct (table_sort xs)
unfolding table_sort
table_sort-Distinct [] d = tt
table_sort-Distinct (x ∷ xs) (new, rest) =
    insert-Distinct x (table_sort xs) (member-table_sort x xs ∙ new) (table_sort-Distinct xs rest)

-- A sorted list without repetitions is determined by its members.
pub Ascending-unique :
    (a b : List Bytes)
    → Ascending a
    → Ascending b
    → Distinct a
    → Distinct b
    → ((z : Bytes) → member z a ≡ member z b)
    → a ≡ b
unfolding member
Ascending-unique [] [] _ _ _ _ same = refl
Ascending-unique [] (y ∷ b) _ _ _ _ same = ground (arith, same y, bytes_eq_refl y)
Ascending-unique (x ∷ a) [] _ _ _ _ same = ground (arith, same x, bytes_eq_refl x)
Ascending-unique (x ∷ a) (y ∷ b) (low_x, up_a) (low_y, up_b) (new_x, da) (new_y, db) same =
    let heads : x ≡ y = ground (
      arith,
      same x,
      same y,
      bytes_eq_refl x,
      bytes_eq_refl y,
      bytes_eq_iff x y,
      bytes_eq_iff y x,
      low_x y,
      low_y x,
      bytes_le_antisymm x y,
    ) in
    ap₂ ◌∷◌ heads (
      Ascending-unique a b up_a up_b da db λ z.
        ground (
          arith,
          same z,
          ap (λ w. bytes_eq w z) heads,
          member-bytes_eq x z a,
          member-bytes_eq y z b,
        ))

pub Distinct-concat :
    (xs : List Bytes) (x : Bytes) → Distinct xs → member x xs ≡ false → Distinct (xs ++ x ∷ [])
unfolding member
Distinct-concat [] x d h = (refl, tt)
Distinct-concat (y ∷ xs) x (new, rest) h = (
  ground (arith, h, new, member-append y xs (x ∷ []), bytes_eq_sym x y),
  Distinct-concat xs x rest (ground (arith, h)),
)
