-- ===== src/Local/Depends/Order.antt =====
-- local/e2tool.lua: every outcome of `dlist_recursive`.
use mathlib.Core.Logic.{◌↔◌}
use e2factory.Common.{
  suc, ◌+◌, ◌≡◌, refl, sym, ap, subst, ◌∙◌, true, false, none, List, [], ◌∷◌, ◌++◌, Bytes, length,
  arith, append_assoc, bytes_eq, bytes_eq_iff, Bool-cases, inl, inr,
}
use e2factory.Common.Sorting.{member, member-append, Distinct, bytes_eq_refl}
use e2factory.Local.Tables.{Table, get, keys, is_nil, is_nil-none}
use e2factory.Local.StringList.{StringList}
use e2factory.Local.Depends.{
  Walk, Outcome, ok, cyclic, invalid_name, invalid_result, raised, out_of_fuel, ◌>>=◌, each, visit,
  select, start, dlist_from, verify_src_res_name_valid_chars,
}
use e2factory.Local.Depends.Spec.{Depends, Needed, selected, indirect, IsCycle, Ordered}
use e2factory.Local.Depends.Visit.{IsWalk, Sound}
use e2factory.Local.Depends.Visit.Finish.{Found, AllFound, Found-cons, stays}
use e2factory.Local.Depends.Visit.Levels.{visit-Sound}

length-keys : {V : Type 0} (dict : Table V) → length (keys dict) ≡ length dict
unfolding keys
length-keys [] = refl
length-keys ((k, v) ∷ rest) = ap (λ n. suc n) (length-keys rest)

module _ (results : Table StringList) (roots : List Bytes) where
  -- What each outcome means.
  abbrev pub Answered : {A : Type 0} → (A → Type 0) → Outcome A → Type 0
  Answered P (ok a) = P a
  Answered P (cyclic c) = IsCycle results c
  Answered P (invalid_name x) =
      (member x roots ≡ true) × (verify_src_res_name_valid_chars x ≡ false)
  Answered P (invalid_result x) = (member x roots ≡ true) × (get results x ≡ none)
  Answered P (raised x) = Needed results roots x × (get results x ≡ none)
  Answered P out_of_fuel = ⊥

  Answered-bind :
      {A B : Type 0} (P : A → Type 0) (Q : B → Type 0) (m : Outcome A) (f : A → Outcome B)
      → Answered P m
      → ((a : A) → P a → Answered Q (f a))
      → Answered Q (m >>= f)
  Answered-bind P Q (ok a) f h k = k a h
  Answered-bind P Q (cyclic c) f h k = h
  Answered-bind P Q (invalid_name x) f h k = h
  Answered-bind P Q (invalid_result x) f h k = h
  Answered-bind P Q (raised x) f h k = h
  Answered-bind P Q out_of_fuel f h k = h

  Answered-map :
      {A : Type 0} (P Q : A → Type 0) (m : Outcome A)
      → Answered P m
      → ((a : A) → P a → Q a)
      → Answered Q m
  Answered-map P Q (ok a) h k = k a h
  Answered-map P Q (cyclic c) h k = h
  Answered-map P Q (invalid_name x) h k = h
  Answered-map P Q (invalid_result x) h k = h
  Answered-map P Q (raised x) h k = h
  Answered-map P Q out_of_fuel h k = h

  -- More levels than results.
  Sound-Answered :
      (P : Walk → Type 0) (m : Outcome Walk)
      → Sound results roots (length results + 1) P m
      → Answered P m
  Sound-Answered P (ok a) h = h
  Sound-Answered P (cyclic c) h = h
  Sound-Answered P (invalid_name x) h = absurd h
  Sound-Answered P (invalid_result x) h = absurd h
  Sound-Answered P (raised x) h = h
  Sound-Answered P out_of_fuel h = absurd (omega (arith, h, length-keys results))

  select-Answered :
      (w : Walk) (name : Bytes)
      → IsWalk results roots w
      → w.path ≡ []
      → member name roots ≡ true
      → Answered (Found results roots w name) (select results (length results + 1) w name)
  unfolding select
  select-Answered w name v empty m = elim (Bool-cases (verify_src_res_name_valid_chars name)) [
    | inr bad ↦ rw bad (m, bad)
    | inl good ↦ rw good (elim (Bool-cases (is_nil (get results name))) [
      | inl missing ↦ rw missing (m, is_nil-none _ missing)
      | inr there ↦ rw there (
          Sound-Answered (Found results roots w name) (visit results (length results + 1) w name) (
            visit-Sound results roots (length results + 1) (length results + 1) w name
              (omega (arith, ap length empty)) v (rw empty tt) (selected m)))
    ])
  ]

  selects-Answered :
      (names : List Bytes) (w : Walk)
      → IsWalk results roots w
      → w.path ≡ []
      → ((x : Bytes) → member x names ≡ true → member x roots ≡ true)
      → Answered
          (AllFound results roots w names)
          (each (select results (length results + 1)) w names)
  unfolding each member
  selects-Answered [] w v empty all = (stays results roots w v, λ x m. cc)
  selects-Answered (name ∷ names) w v empty all =
      let step = select results (length results + 1) in
      let here = all name (ground (arith, bytes_eq_refl name)) in
      Answered-bind (Found results roots w name) (AllFound results roots w (name ∷ names))
        (step w name) (λ u. each step u names) (select-Answered w name v empty here)
        λ u (visited, found).
          Answered-map (AllFound results roots u names) _ (each step u names)
            (selects-Answered names u visited.walk (visited.path ∙ empty)
              λ x m. all x (ground (arith, m)))
            λ next later. Found-cons results roots w u next name names (visited, found) later

  start-IsWalk : IsWalk results roots (start results)
  unfolding start member
  start-IsWalk = record {
    marks = λ x. refl;
    spots = λ x pos s. cc;
    fresh = λ x s. refl;
    apart = λ x m. cc;
    distinct_path = tt;
    distinct = tt;
    ordered = tt;
    known = λ x m. cc;
    needed = λ x m. cc;
  }

  Ordered-closed :
      (before t : List Bytes) (x d : Bytes)
      → Ordered results before t
      → member x t ≡ true
      → Depends results x d
      → member d (before ++ t) ≡ true
  unfolding member
  Ordered-closed before [] x d o m dep = cc
  Ordered-closed before (y ∷ t) x d (first, rest) m dep = elim (Bool-cases (bytes_eq y x)) [
    | inl same ↦
        let early =
          first d (subst (λ z. Depends results z d) (sym ((bytes_eq_iff y x).0 same)) dep) in
        ground (arith, early, member-append d before (y ∷ t))
    | inr other ↦
        rw (← append_assoc before (y ∷ []) t)
          (Ordered-closed (before ++ y ∷ []) t x d rest (ground (arith, m, other)) dep)
  ]

  -- The list holds each needed result once, and no other, behind all that it depends on.
  abbrev pub IsOrder : List Bytes → Type 0
  IsOrder t =
      Ordered results [] t
      × Distinct t
      × ((x : Bytes) → (member x t ≡ true) ↔ Needed results roots x)

  Needed-found :
      (t : List Bytes) (x : Bytes)
      → Ordered results [] t
      → ((z : Bytes) → member z roots ≡ true → member z t ≡ true)
      → Needed results roots x
      → member x t ≡ true
  Needed-found t x o all (selected m) = all x m
  Needed-found t d o all (indirect {x = x} need dep) =
      Ordered-closed [] t x d o (Needed-found t x o all need) dep

  pub dlist_from-Answered :
      (names : List Bytes)
      → ((x : Bytes) → member x names ≡ member x roots)
      → Answered IsOrder (dlist_from results names)
  unfolding dlist_from start
  dlist_from-Answered names same =
      Answered-bind (AllFound results roots (start results) names) IsOrder
        (each (select results (length results + 1)) (start results) names) (λ w. ok w.t)
        (selects-Answered names (start results) start-IsWalk refl λ x m. sym (same x) ∙ m)
        λ w (visited, all). (
          visited.walk.ordered,
          visited.walk.distinct,
          λ x. (
            visited.walk.needed x,
            Needed-found w.t x visited.walk.ordered λ z m. all z (same z ∙ m),
          ),
        )
