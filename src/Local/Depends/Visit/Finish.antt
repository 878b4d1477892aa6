-- ===== src/Local/Depends/Visit/Finish.antt =====
-- local/e2tool.lua: the end of a visit, when `leave` puts the result behind its dependencies.
use e2factory.Common.{
  ℕ, ◌-◌, ◌≡◌, refl, sym, ap, ap₂, subst, ◌∙◌, fun_ext, true, false, Option, none, List, [], ◌∷◌,
  ◌++◌, Bytes, length, take, arith, bytes_eq, bytes_eq_iff, Bool-cases, inl, inr,
}
use e2factory.Common.Sorting.{
  member, member-append, Distinct-concat, bytes_eq_refl, member-bytes_eq,
}
use e2factory.Local.Tables.{Table}
use e2factory.Local.StringList.{StringList}
use e2factory.Local.Depends.{Walk, update, enter, leave}
use e2factory.Local.Depends.Spec.{Depends, Needed}
use e2factory.Local.Depends.Path.{Ordered-concat, take-concat}
use e2factory.Local.Depends.Visit.{IsWalk, Visited, Visited-trans}

update_back :
    (seen : Bytes → Option ℕ) (name : Bytes) (pos : Option ℕ)
    → seen name ≡ none
    → update (update seen name pos) name none ≡ seen
update_back seen name pos new = fun_ext λ x. elim (Bool-cases (bytes_eq name x)) [
  | inl same ↦ rw same (sym new ∙ ap seen ((bytes_eq_iff name x).0 same))
  | inr other ↦ rw other refl
]

module _ (results : Table StringList) (roots : List Bytes) where
  -- `w` with `name` behind what the visits of its dependencies left.
  abbrev pub finished : Walk → Walk → Bytes → Walk
  finished w next name = record next { seen = w.seen; path = w.path; t = next.t ++ name ∷ [] }

  pub leave-finished :
      (w next : Walk) (name : Bytes)
      → w.seen name ≡ none
      → Visited results roots (enter w name) next
      → leave next name ≡ finished w next name
  unfolding enter leave
  leave-finished w next name new d =
      ap₂ (λ path seen. record next { t = next.t ++ name ∷ []; path = path; seen = seen })
        (ap (λ p. take (length p - 1) p) d.path ∙ take-concat w.path name)
        (ap (λ seen. update seen name none) d.seen ∙ update_back w.seen name _ new)

  pub finished-IsWalk :
      (w next : Walk) (name : Bytes)
      → IsWalk results roots w
      → w.seen name ≡ none
      → Needed results roots name
      → Visited results roots (enter w name) next
      → ((d : Bytes) → Depends results name d → member d next.t ≡ true)
      → IsWalk results roots (finished w next name)
  unfolding enter member
  finished-IsWalk w next name v new need d deps =
      let inside = λ (x : Bytes). ap (member x) d.path ∙ member-append x w.path (name ∷ []) in
      let out : member name next.t ≡ false =
        d.walk.apart name (ground (arith, inside name, bytes_eq_refl name)) in
      record {
        marks = λ x. ground (arith, d.walk.marks x, inside x, member-append x next.t (name ∷ []));
        spots = v.spots;
        fresh = v.fresh;
        apart = λ x m. ground (
          arith,
          m,
          inside x,
          d.walk.apart x,
          v.fresh name new,
          member-append x next.t (name ∷ []),
          member-bytes_eq name x w.path,
        );
        distinct_path = v.distinct_path;
        distinct = Distinct-concat next.t name d.walk.distinct out;
        ordered = Ordered-concat results [] next.t name d.walk.ordered deps;
        known = v.known;
        needed = λ x m. elim (Bool-cases (bytes_eq name x)) [
          | inl same ↦ subst (Needed results roots) ((bytes_eq_iff name x).0 same) need
          | inr other ↦
              d.walk.needed x (ground (arith, m, other, member-append x next.t (name ∷ [])))
        ];
      }

  abbrev pub Found : Walk → Bytes → Walk → Type 0
  Found w name next = Visited results roots w next × (member name next.t ≡ true)

  pub finished-Found :
      (w next : Walk) (name : Bytes)
      → IsWalk results roots w
      → w.seen name ≡ none
      → Needed results roots name
      → Visited results roots (enter w name) next
      → ((d : Bytes) → Depends results name d → member d next.t ≡ true)
      → Found w name (finished w next name)
  unfolding enter member
  finished-Found w next name v new need d deps = (
    record {
      walk = finished-IsWalk w next name v new need d deps;
      path = refl;
      seen = refl;
      grows = λ x m. ground (arith, m, d.grows x, member-append x next.t (name ∷ []));
    },
    ground (arith, member-append name next.t (name ∷ []), bytes_eq_refl name),
  )

  pub stays : (w : Walk) → IsWalk results roots w → Visited results roots w w
  stays w v = record { walk = v; path = refl; seen = refl; grows = λ x m. m }

  -- Every one of the names is in the list.
  abbrev pub AllFound : Walk → List Bytes → Walk → Type 0
  AllFound w names next =
      Visited results roots w next × ((x : Bytes) → member x names ≡ true → member x next.t ≡ true)

  pub Found-cons :
      (w u next : Walk) (name : Bytes) (names : List Bytes)
      → Found w name u
      → AllFound u names next
      → AllFound w (name ∷ names) next
  unfolding member
  Found-cons w u next name names (visited, found) (later, all) = (
    Visited-trans results roots w u next visited later,
    λ x m. elim (Bool-cases (bytes_eq name x)) [
      | inl same ↦
          subst (λ z. member z next.t ≡ true) ((bytes_eq_iff name x).0 same)
            (later.grows name found)
      | inr other ↦ all x (ground (arith, m, other))
    ],
  )
