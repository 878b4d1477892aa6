-- ===== src/Local/Build/Sets.antt =====
-- local/e2build.lua over local/e2tool.lua: a build set in the order of `dlist_recursive`, as
-- local/e2-build.lua makes it.
use e2factory.Common.{
  ◌≡◌, refl, sym, ap, subst, ◌∙◌, ◌↔◌, Bool, true, List, [], ◌∷◌, ◌++◌, Bytes, append_assoc,
}
use e2factory.Common.Sorting.{member}
use e2factory.Local.Tables.{Table}
use e2factory.Local.StringList.{StringList}
use e2factory.Local.Depends.{ok, dlist_recursive}
use e2factory.Local.Depends.Spec.{Needed, Ordered}
use e2factory.Local.Depends.Order.{Answered, IsOrder}
use e2factory.Local.Depends.Results.{dlist_recursive-Answered}
use e2factory.Local.Build.{Outcome, success, failure, Step, build, build_set, further}

module _ {World : Type 0} (of : Bytes → List (Step World) × Bool) where
  abbrev pub build_one : Bytes → World → Outcome × World
  build_one name w = build (of name).0 (of name).1 name w

  -- The processes of these results, one behind the other and each with true, lead from the first
  -- world to the second.
  abbrev pub Processed : List Bytes → World → World → Type 0
  Processed [] w v = w ≡ v
  Processed (name ∷ names) w v =
      ((build_one name w).0 ≡ success) × Processed names (build_one name w).1 v

  -- How the build of a set ends: all processes have ended with true; or the process of one result
  -- has failed behind those in front of it, and none of the following has been started.
  pub data Course (names : List Bytes) (w : World) (r : Outcome × World) : Type 0 where
    completed : (v : World) → Processed names w v → r ≡ (success, v) → Course names w r
    stopped :
        (done rest : List Bytes) (name e : Bytes) (v v' : World)
        → names ≡ done ++ name ∷ rest
        → Processed done w v
        → build_one name v ≡ (failure e, v')
        → r ≡ (failure (name ++ e), v')
        → Course names w r

  goes_on :
      (name : Bytes) (names : List Bytes) (w : World) (r : Outcome × World)
      → (build_one name w).0 ≡ success
      → Course names (build_one name w).1 r
      → Course (name ∷ names) w r
  goes_on name names w r good (completed v all e) = completed v (good, all) e
  goes_on name names w r good (stopped done rest name' e v v' split went bad ends) =
      stopped (name ∷ done) rest name' e v v' (ap (λ t. name ∷ t) split) (good, went) bad ends

  build_set-Course : (names : List Bytes) (w : World) → Course names w (build_set of names w)
  unfolding build_set
  build_set-Course [] w = completed w refl refl
  build_set-Course (name ∷ names) w =
      after (build_one name w) refl (build_set-Course names (build_one name w).1)
    where
      after :
          (r : Outcome × World)
          → build_one name w ≡ r
          → Course names (build_one name w).1 (build_set of names (build_one name w).1)
          → Course (name ∷ names) w (further name r (λ v. build_set of names v))
      after (success, v) one rest = goes_on name names w _ (ap (λ p. p.0) one) (
          subst (λ u. Course names (build_one name w).1 (build_set of names u)) (ap (λ p. p.1) one)
            rest)
      after (failure e, v) one rest = stopped [] names name e w v refl refl one refl

-- The results whose processes were started: all, or those up to the one that failed.
abbrev pub started :
    {World : Type 0} {of : Bytes → List (Step World) × Bool} {names : List Bytes} {w : World}
    {r : Outcome × World}
    → Course of names w r
    → List Bytes
started {names = names} (completed v all e) = names
started (stopped done rest name e v v' split went bad ends) = done ++ name ∷ []

Ordered-front :
    (results : Table StringList) (before front rest : List Bytes)
    → Ordered results before (front ++ rest)
    → Ordered results before front
Ordered-front results before [] rest order = tt
Ordered-front results before (name ∷ front) rest (deps, order) =
    (deps, Ordered-front results (before ++ name ∷ []) front rest order)

started-Ordered :
    {World : Type 0} {of : Bytes → List (Step World) × Bool} {w : World} {r : Outcome × World}
    (results : Table StringList) (names : List Bytes) (c : Course of names w r)
    → Ordered results [] names
    → Ordered results [] (started c)
started-Ordered results names (completed v all e) order = order
started-Ordered results names (stopped done rest name e v v' split went bad ends) order =
    Ordered-front results [] (done ++ name ∷ []) rest
      (subst (Ordered results []) (split ∙ sym (append_assoc done (name ∷ []) rest)) order)

-- In the order that dlist_recursive returned for the selected results, which has exactly the
-- results that they need, directly or not, themselves included: when the process of a result is
-- started, the processes of all its dependencies have ended with true; the first failure ends the
-- build with the name of its result, and no further process is started; and the build ends with
-- true only behind the processes of all results.
pub build_set_in_order :
    {World : Type 0} (results : Table StringList) (of : Bytes → List (Step World) × Bool)
    (resultv t : List Bytes) (w : World)
    → dlist_recursive results resultv ≡ ok t
    → (c : Course of t w (build_set of t w)) × Ordered results [] (started c)
      × ((x : Bytes) → (member x t ≡ true) ↔ Needed results resultv x)
build_set_in_order results of resultv t w sorted =
    let (order, distinct, members) =
      subst (Answered results resultv (IsOrder results resultv)) sorted
        (dlist_recursive-Answered results resultv) in
    let c = build_set-Course of t w in (c, started-Ordered results t c order, members)
