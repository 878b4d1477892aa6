-- ===== src/Local/Depends/Visit/Levels.antt =====
-- local/e2tool.lua: what one call of `visit` does, by induction on the levels that are left.
use e2factory.Common.{
  ℕ, zero, suc, ◌+◌, ◌-◌, ◌≡◌, refl, sym, ap, subst, ◌∙◌, true, false, none, some, List, [], ◌∷◌,
  ◌++◌, Bytes, length, drop, arith, Bool-cases, Option-cases, inl, inr, length-append,
}
use e2factory.Common.Sorting.{member, bytes_eq_refl}
use e2factory.Local.Tables.{Table, get}
use e2factory.Local.StringList.{StringList, lookup, totable}
use e2factory.Local.StringList.Members.{lookup-sort_if_needed}
use e2factory.Local.Depends.{Walk, Outcome, ok, cyclic, raised, each, enter, leave, visit, ◌>>=◌}
use e2factory.Local.Depends.Spec.{Depends, Needed, indirect, Linked, IsCycle}
use e2factory.Local.Depends.Path.{Linked-extend, Linked-drop, drop-concat}
use e2factory.Local.Depends.Visit.{IsWalk, Sound, Sound-bind, Sound-map, path-short, enter-IsWalk}
use e2factory.Local.Depends.Visit.Finish.{
  leave-finished, Found, finished-Found, stays, AllFound, Found-cons,
}

lookup-totable : (deps : StringList) (d : Bytes) → member d (totable deps).0 ≡ lookup deps d
unfolding totable lookup
lookup-totable deps d = lookup-sort_if_needed deps d

module _ (results : Table StringList) (roots : List Bytes) where
  -- Each name is found if a visit of it finds it, from any walk on the same path.
  each-Sound :
      (levels : ℕ) (step : Walk → Bytes → Outcome Walk) (names : List Bytes) (w : Walk)
      → IsWalk results roots w
      → ((u : Walk) (name : Bytes)
          → IsWalk results roots u
          → u.path ≡ w.path
          → member name names ≡ true
          → Sound results roots levels (Found results roots u name) (step u name))
      → Sound results roots levels (AllFound results roots w names) (each step w names)
  unfolding each member
  each-Sound levels step [] w v visits = (stays results roots w v, λ x m. cc)
  each-Sound levels step (name ∷ names) w v visits =
      Sound-bind results roots levels (Found results roots w name) _ (step w name)
        (λ next. each step next names) (visits w name v refl (ground (arith, bytes_eq_refl name)))
        λ u (visited, found).
          Sound-map results roots levels _ _ (each step u names)
            (each-Sound levels step names u visited.walk
              λ a n v' same m. visits a n v' (same ∙ visited.path) (ground (arith, m)))
            λ next (later, all).
              Found-cons results roots w u next name names (visited, found) (later, all)

  seen-Sound :
      (levels pos : ℕ) (w : Walk) (name : Bytes)
      → IsWalk results roots w
      → Linked results (w.path ++ name ∷ [])
      → w.seen name ≡ some pos
      → IsCycle results (drop (pos - 1) w.path ++ name ∷ [])
  seen-Sound levels pos w name v links there =
      let (k, rest, e, d) = v.spots name pos there in
      let spot : drop (pos - 1) w.path ≡ name ∷ rest =
        ap (λ n. drop n w.path) (omega (arith, e)) ∙ d in
      (
        name,
        rest,
        ap (λ p. p ++ name ∷ []) spot,
        rw spot (
            subst (Linked results) (drop-concat k w.path name name rest d)
              (Linked-drop results k (w.path ++ name ∷ []) links)),
      )

  same-lookup :
      (name d : Bytes) (deps other : StringList)
      → get results name ≡ some deps
      → get results name ≡ some other
      → lookup other d ≡ true
      → lookup deps d ≡ true
  same-lookup name d deps other there at m =
      let same : other ≡ deps = cc in ap (λ s. lookup s d) (sym same) ∙ m

  -- The visits of the dependencies, then `leave`.
  deps-Sound :
      (levels : ℕ) (step : Walk → Bytes → Outcome Walk) (w : Walk) (name : Bytes)
      (deps : StringList)
      → IsWalk results roots w
      → w.seen name ≡ none
      → w.col name ≡ false
      → get results name ≡ some deps
      → Needed results roots name
      → ((u : Walk) (d : Bytes)
          → IsWalk results roots u
          → u.path ≡ w.path ++ name ∷ []
          → Depends results name d
          → Sound results roots levels (Found results roots u d) (step u d))
      → Sound results roots levels
          (Found results roots w name)
          (each step (enter w name) (totable deps).0 >>= λ next. ok (leave next name))
  unfolding enter
  deps-Sound levels step w name deps v new white there need visits =
      let entered = enter-IsWalk results roots w name deps v new white there in
      Sound-bind results roots levels _ _ (each step (enter w name) (totable deps).0)
        (λ next. ok (leave next name))
        (each-Sound levels step (totable deps).0 (enter w name) entered
          λ u d v' same m. visits u d v' same (deps, there, sym (lookup-totable deps d) ∙ m))
        λ next (visited, all). rw (leave-finished results roots w next name new visited) (
          finished-Found results roots w next name v new need visited λ d (other, at, m).
            all d (lookup-totable deps d ∙ same-lookup name d deps other there at m))

  visit-Sound_missing :
      (fuel levels : ℕ) (w : Walk) (name : Bytes)
      → w.seen name ≡ none
      → w.col name ≡ false
      → get results name ≡ none
      → Needed results roots name
      → Sound results roots levels (Found results roots w name) (visit results (suc fuel) w name)
  unfolding visit
  visit-Sound_missing fuel levels w name new white missing need =
      let stuck : visit results (suc fuel) w name ≡ raised name =
        rw (new, white, missing, visit) refl in
      rw stuck (need, missing)

  -- One level, if `visit` is sound on the levels below.
  visit-Sound_new :
      (fuel levels : ℕ) (w : Walk) (name : Bytes) (deps : StringList)
      → IsWalk results roots w
      → w.seen name ≡ none
      → w.col name ≡ false
      → get results name ≡ some deps
      → Needed results roots name
      → ((u : Walk) (d : Bytes)
          → IsWalk results roots u
          → u.path ≡ w.path ++ name ∷ []
          → Depends results name d
          → Sound results roots levels (Found results roots u d) (visit results fuel u d))
      → Sound results roots levels (Found results roots w name) (visit results (suc fuel) w name)
  unfolding visit
  visit-Sound_new fuel levels w name deps v new white there need visits =
      let below : visit results (suc fuel) w name ≡ (
          each (visit results fuel) (enter w name) (totable deps).0 >>= λ next.
          ok (leave next name)) =
        rw (new, white, there, visit) refl in
      rw below (deps-Sound levels (visit results fuel) w name deps v new white there need visits)

  visit-Sound_seen :
      (fuel levels pos : ℕ) (w : Walk) (name : Bytes)
      → IsWalk results roots w
      → Linked results (w.path ++ name ∷ [])
      → w.seen name ≡ some pos
      → Sound results roots levels (Found results roots w name) (visit results (suc fuel) w name)
  unfolding visit
  visit-Sound_seen fuel levels pos w name v links there =
      let closed : visit results (suc fuel) w name ≡ cyclic (drop (pos - 1) w.path ++ name ∷ []) =
        rw (there, visit) refl in
      rw closed (seen-Sound levels pos w name v links there)

  visit-Sound_black :
      (fuel levels : ℕ) (w : Walk) (name : Bytes)
      → IsWalk results roots w
      → w.seen name ≡ none
      → w.col name ≡ true
      → Sound results roots levels (Found results roots w name) (visit results (suc fuel) w name)
  unfolding visit
  visit-Sound_black fuel levels w name v new black =
      let done : visit results (suc fuel) w name ≡ ok w = rw (new, black, visit) refl in
      rw done (stays results roots w v, ground (arith, v.marks name, v.fresh name new, black))

  pub visit-Sound :
      (fuel levels : ℕ) (w : Walk) (name : Bytes)
      → length w.path + fuel ≡ levels
      → IsWalk results roots w
      → Linked results (w.path ++ name ∷ [])
      → Needed results roots name
      → Sound results roots levels (Found results roots w name) (visit results fuel w name)
  visit-Sound zero levels w name sum v links need =
      unfold visit in omega (arith, sum, path-short results roots w v)
  visit-Sound (suc fuel) levels w name sum v links need = elim (Option-cases (w.seen name)) [
    | inr (pos, there) ↦ visit-Sound_seen fuel levels pos w name v links there
    | inl new ↦ elim (Bool-cases (w.col name)) [
      | inl black ↦ visit-Sound_black fuel levels w name v new black
      | inr white ↦ elim (Option-cases (get results name)) [
        | inl missing ↦ visit-Sound_missing fuel levels w name new white missing need
        | inr (deps, there) ↦
            visit-Sound_new fuel levels w name deps v new white there need λ u d v' same dep.
              visit-Sound fuel levels u d
                (omega (arith, sum, ap length same, length-append w.path (name ∷ []))) v'
                (subst (λ p. Linked results (p ++ d ∷ [])) (sym same)
                  (Linked-extend results w.path name d links dep))
                (indirect need dep)
      ]
    ]
  ]
