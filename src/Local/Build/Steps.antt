-- ===== src/Local/Build/Steps.antt =====
-- local/e2build.lua: where a step is put, and which steps run.
use e2factory.Common.{
  ◌≡◌, refl, ap, ◌∙◌, true, false, Option, none, some, List, [], ◌∷◌, ◌++◌, Bytes, bytes_eq, arith,
  Bool-cases, inl, inr,
}
use e2factory.Local.Build.{Step, behind, add_step_before, add_step_after}

module _ {World : Type 0} where
  -- No step of this name.
  abbrev pub Without : Bytes → List (Step World) → Type 0
  Without name [] = Unit
  Without name (s ∷ steps) = (bytes_eq s.name name ≡ false) × Without name steps

  -- The steps around the first one with this name.
  pub record Found (steps : List (Step World)) (name : Bytes) : Type 0 where
    pub front : List (Step World)
    pub step : Step World
    pub back : List (Step World)
    pub whole : steps ≡ front ++ step ∷ back
    pub named : bytes_eq step.name name ≡ true
    pub first : Without name front

  behind-some :
      (s : Step World) (o : Option (List (Step World))) (steps : List (Step World))
      → behind s o ≡ some steps
      → (rest : List (Step World)) × (o ≡ some rest) × (steps ≡ s ∷ rest)
  behind-some s none steps h = cc
  behind-some s (some rest) steps h = (rest, refl, ground (arith, h))

  later :
      (s : Step World) (steps : List (Step World)) (name : Bytes)
      → bytes_eq s.name name ≡ false
      → Found steps name
      → Found (s ∷ steps) name
  later s steps name other f = record {
    front = s ∷ f.front;
    step = f.step;
    back = f.back;
    whole = ap (λ l. s ∷ l) f.whole;
    named = f.named;
    first = (other, f.first);
  }

  -- If both find the place, a step is put directly in front of the first step of that name, or
  -- directly behind it, and all other steps stay in their order.
  pub add_step-places :
      (steps before after : List (Step World)) (name : Bytes) (new : Step World)
      → add_step_before steps name new ≡ some before
      → add_step_after steps name new ≡ some after
      → (f : Found steps name) × (before ≡ f.front ++ new ∷ f.step ∷ f.back)
        × (after ≡ f.front ++ f.step ∷ new ∷ f.back)
  unfolding add_step_before add_step_after later
  add_step-places [] before after name new h k = cc
  add_step-places (s ∷ steps) before after name new h k = elim (Bool-cases (bytes_eq s.name name)) [
    | inl same ↦ (
      record { front = []; step = s; back = steps; whole = refl; named = same; first = tt },
      ground (arith, h, same),
      ground (arith, k, same),
    )
    | inr other ↦
        let (b, hb, eb) =
          behind-some s (add_step_before steps name new) before (ground (arith, h, other)) in
        let (a, ha, ea) =
          behind-some s (add_step_after steps name new) after (ground (arith, k, other)) in
        let (f, fb, fa) = add_step-places steps b a name new hb ha in
        (later s steps name other f, eb ∙ ap (λ l. s ∷ l) fb, ea ∙ ap (λ l. s ∷ l) fa)
  ]
