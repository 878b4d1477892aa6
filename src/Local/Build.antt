-- ===== src/Local/Build.antt =====
-- local/e2build.lua: the steps of a build process, and the loop over the results of a build set.
-- Steps are methods, of this class or of a plugin's: here they are functions on an unknown state.
-- The messages that are logged are left out.
pub mod Steps
pub mod Sets
use e2factory.Common.{
  Bool, true, false, Option, none, some, List, [], ◌∷◌, ◌++◌, Bytes, bytes_eq, if◌then◌else◌,
}

-- How a step ends: with true, with true and `rbs:skip()`, or with false and an error.
pub data Ended : Type 0 where
  next skipped : Ended
  failed : Bytes → Ended

-- True, or false with an error.
pub data Outcome : Type 0 where
  success : Outcome
  failure : Bytes → Outcome

-- A step of a process mode; the method takes the name of the result.
pub record Step (World : Type 0) : Type 0 where
  pub name : Bytes
  pub func : Bytes → World → Ended × World

abbrev pub behind :
    {World : Type 0} → Step World → Option (List (Step World)) → Option (List (Step World))
behind s none = none
behind s (some steps) = some (s ∷ steps)

abbrev pub continue : {World : Type 0} → Ended × World → (World → Outcome × World) → Outcome × World
continue (next, w) rest = rest w
continue (skipped, w) rest = (success, w)
continue (failed e, w) rest = (failure e, w)

abbrev pub further :
    {World : Type 0} → Bytes → Outcome × World → (World → Outcome × World) → Outcome × World
further name (success, w) rest = rest w
further name (failure e, w) rest = (failure (name ++ e), w)

module _ {World : Type 0} where
  unfoldable pub add_step : List (Step World) → Step World → List (Step World)
  add_step steps step = steps ++ step ∷ []

  -- The search for the first step called `before`, and `table.insert` at its place; `none` is the
  -- error that there is no such step.
  unfoldable pub add_step_before :
      List (Step World) → Bytes → Step World → Option (List (Step World))
  add_step_before [] before step = none
  add_step_before (s ∷ steps) before step =
      let later = behind s (add_step_before steps before step) in
      if bytes_eq s.name before then some (step ∷ s ∷ steps) else later

  -- `table.insert` behind its place.
  unfoldable pub add_step_after :
      List (Step World) → Bytes → Step World → Option (List (Step World))
  add_step_after [] after step = none
  add_step_after (s ∷ steps) after step =
      let later = behind s (add_step_after steps after step) in
      if bytes_eq s.name after then some (s ∷ step ∷ steps) else later

  -- The loop of `build_process_class:build`.
  unfoldable pub build_steps : List (Step World) → Bytes → World → Outcome × World
  build_steps [] res w = (success, w)
  build_steps (step ∷ steps) res w = continue (step.func res w) (λ w. build_steps steps res w)

  -- `skip` is `rbs:skip()` at the start.
  unfoldable pub build : List (Step World) → Bool → Bytes → World → Outcome × World
  unfolding build_steps
  build steps skip res w = if skip then (success, w) else build_steps steps res w

  -- `build_set:build` over the names of the set. `of` gives the steps of a result's process in its
  -- mode, and whether it is skipped; the error of a failure starts with the result's name.
  unfoldable pub build_set :
      (Bytes → List (Step World) × Bool) → List Bytes → World → Outcome × World
  unfolding build
  build_set of [] w = (success, w)
  build_set of (name ∷ names) w =
      further name (build (of name).0 (of name).1 name w) (λ w. build_set of names w)
