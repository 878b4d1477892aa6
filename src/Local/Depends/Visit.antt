-- ===== src/Local/Depends/Visit.antt =====
-- local/e2tool.lua: the state of `visit` between two steps, and what a call leaves of it.
pub mod Finish
pub mod Levels
use e2factory.Common.{
  ℕ, zero, suc, ◌+◌, ◌-◌, ◌≤◌, ◌≡◌, refl, sym, ap, ap₂, subst, ◌∙◌, fun_ext, true, false, ◌||◌,
  Option, none, some, List, [], ◌∷◌, ◌++◌, Bytes, length, drop, take, arith, bytes_eq, bytes_eq_iff,
  Bool-cases, Option-cases, inl, inr, length-append,
}
use e2factory.Common.Sorting.{
  member, Distinct, member-append, Distinct-concat, bytes_eq_refl, member-bytes_eq,
}
use e2factory.Local.Tables.{Table, get, keys, is_nil, member-keys}
use e2factory.Local.StringList.{StringList, lookup, totable}
use e2factory.Local.StringList.Members.{lookup-sort_if_needed}
use e2factory.Local.Depends.{
  Walk, update, Outcome, ok, cyclic, invalid_name, invalid_result, raised, out_of_fuel, each, enter,
  leave, visit, ◌>>=◌,
}
use e2factory.Local.Depends.Spec.{Depends, Needed, indirect, Linked, IsCycle, Ordered}
use e2factory.Local.Depends.Path.{
  Linked-extend, Linked-drop, Ordered-concat, drop-concat, drop-length, take-concat,
}
use e2factory.Local.Depends.Pigeonhole.{Distinct-length}

module _ (results : Table StringList) (roots : List Bytes) where
  pub record IsWalk (w : Walk) : Type 0 where
    pub marks : (x : Bytes) → w.col x ≡ member x w.path || member x w.t
    pub spots :
        (x : Bytes) (pos : ℕ)
        → w.seen x ≡ some pos
        → (k : ℕ) × (rest : List Bytes) × (pos ≡ suc k) × (drop k w.path ≡ x ∷ rest)
    pub fresh : (x : Bytes) → w.seen x ≡ none → member x w.path ≡ false
    pub apart : (x : Bytes) → member x w.path ≡ true → member x w.t ≡ false
    pub distinct_path : Distinct w.path
    pub distinct : Distinct w.t
    pub ordered : Ordered results [] w.t
    pub known : (x : Bytes) → member x w.path ≡ true → member x (keys results) ≡ true
    pub needed : (x : Bytes) → member x w.t ≡ true → Needed results roots x

  -- What a visit leaves: the path as it was, and more results in the list.
  pub record Visited (w next : Walk) : Type 0 where
    pub walk : IsWalk next
    pub path : next.path ≡ w.path
    pub seen : next.seen ≡ w.seen
    pub grows : (x : Bytes) → member x w.t ≡ true → member x next.t ≡ true

  -- `levels` is the length of the path with the fuel that is left.
  abbrev pub Sound : ℕ → (Walk → Type 0) → Outcome Walk → Type 0
  Sound levels P (ok w) = P w
  Sound levels P (cyclic c) = IsCycle results c
  Sound levels P (invalid_name x) = ⊥
  Sound levels P (invalid_result x) = ⊥
  Sound levels P (raised x) = Needed results roots x × (get results x ≡ none)
  Sound levels P out_of_fuel = levels ≤ length (keys results)

  Sound-bind :
      (levels : ℕ) (P Q : Walk → Type 0) (m : Outcome Walk) (f : Walk → Outcome Walk)
      → Sound levels P m
      → ((w : Walk) → P w → Sound levels Q (f w))
      → Sound levels Q (m >>= f)
  Sound-bind levels P Q (ok w) f h k = k w h
  Sound-bind levels P Q (cyclic c) f h k = h
  Sound-bind levels P Q (invalid_name x) f h k = h
  Sound-bind levels P Q (invalid_result x) f h k = h
  Sound-bind levels P Q (raised x) f h k = h
  Sound-bind levels P Q out_of_fuel f h k = h

  Sound-map :
      (levels : ℕ) (P Q : Walk → Type 0) (m : Outcome Walk)
      → Sound levels P m
      → ((w : Walk) → P w → Q w)
      → Sound levels Q m
  Sound-map levels P Q (ok w) h k = k w h
  Sound-map levels P Q (cyclic c) h k = h
  Sound-map levels P Q (invalid_name x) h k = h
  Sound-map levels P Q (invalid_result x) h k = h
  Sound-map levels P Q (raised x) h k = h
  Sound-map levels P Q out_of_fuel h k = h

  Visited-trans : (a b c : Walk) → Visited a b → Visited b c → Visited a c
  Visited-trans a b c f g = record {
    walk = g.walk;
    path = g.path ∙ f.path;
    seen = g.seen ∙ f.seen;
    grows = λ x m. g.grows x (f.grows x m);
  }

  pub path-short : (w : Walk) → IsWalk w → length w.path ≤ length (keys results)
  path-short w v = Distinct-length w.path (keys results) v.distinct_path v.known

  pub enter-spots :
      (w : Walk) (name x : Bytes) (pos : ℕ)
      → IsWalk w
      → (enter w name).seen x ≡ some pos
      → (k : ℕ) × (rest : List Bytes) × (pos ≡ suc k) × (drop k (enter w name).path ≡ x ∷ rest)
  unfolding enter
  enter-spots w name x pos v s = elim (Bool-cases (bytes_eq name x)) [
    | inl same ↦ (
      length w.path,
      [],
      ground (arith, s, same),
      drop-length w.path name ∙ ap (λ z. z ∷ []) ((bytes_eq_iff name x).0 same),
    )
    | inr other ↦
        let (k, rest, e, d) = v.spots x pos (ground (arith, s, other)) in
        (k, rest ++ name ∷ [], e, drop-concat k w.path x name rest d)
  ]

  pub enter-IsWalk :
      (w : Walk) (name : Bytes) (deps : StringList)
      → IsWalk w
      → w.seen name ≡ none
      → w.col name ≡ false
      → get results name ≡ some deps
      → IsWalk (enter w name)
  unfolding enter member is_nil
  enter-IsWalk w name deps v new white there = record {
    marks = λ x. ground (arith, v.marks x, member-append x w.path (name ∷ []));
    spots = λ x pos s. enter-spots w name x pos v s;
    fresh = λ x s. ground (arith, s, v.fresh x, member-append x w.path (name ∷ []));
    apart = λ x m. ground (
      arith,
      m,
      v.apart x,
      v.marks name,
      white,
      member-append x w.path (name ∷ []),
      member-bytes_eq name x w.t,
    );
    distinct_path = Distinct-concat w.path name v.distinct_path (v.fresh name new);
    distinct = v.distinct;
    ordered = v.ordered;
    known = λ x m. ground (
      arith,
      m,
      v.known x,
      member-append x w.path (name ∷ []),
      member-bytes_eq name x (keys results),
      member-keys results name,
      there,
    );
    needed = v.needed;
  }
