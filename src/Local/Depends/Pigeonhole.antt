-- ===== src/Local/Depends/Pigeonhole.antt =====
-- A list without repetitions is no longer than any list that has its entries.
use e2factory.Common.{◌≤◌, ◌<◌, ◌≡◌, true, List, [], ◌∷◌, Bytes, length, arith}
use e2factory.Common.Sorting.{member, Distinct, member-bytes_eq, bytes_eq_refl}
use e2factory.Local.StringList.{remove_from}
use e2factory.Local.StringList.Members.{member-remove_from}

length-remove_from-le : (xs : List Bytes) (e : Bytes) → length (remove_from xs e).0 ≤ length xs
unfolding remove_from
length-remove_from-le [] e = omega arith
length-remove_from-le (x ∷ xs) e = ground (arith, length-remove_from-le xs e)

length-remove_from-lt :
    (xs : List Bytes) (e : Bytes) → member e xs ≡ true → length (remove_from xs e).0 < length xs
unfolding remove_from member
length-remove_from-lt [] e m = cc
length-remove_from-lt (x ∷ xs) e m =
    ground (arith, m, length-remove_from-le xs e, length-remove_from-lt xs e)

pub Distinct-length :
    (p known : List Bytes)
    → Distinct p
    → ((x : Bytes) → member x p ≡ true → member x known ≡ true)
    → length p ≤ length known
unfolding member
Distinct-length [] known d all = omega arith
Distinct-length (x ∷ p) known (new, d) all =
    let less = length-remove_from-lt known x (all x (ground (arith, bytes_eq_refl x))) in
    let rest =
      Distinct-length p (remove_from known x).0 d
        λ z m. ground (arith, m, new, all z, member-remove_from known x z, member-bytes_eq x z p) in
    omega (arith, less, rest)
