-- ===== src/Sha/Absorb.antt =====
-- A hash that takes its message in pieces, seen abstractly: a state, and fewer bytes than a block
-- that wait. The view of generic/sha1.c and generic/sha2.c that their refinements use.
use e2factory.Common.{
  ℕ, ◌+◌, ◌<◌, ◌≡◌, refl, ap, ◌∙◌, [], ◌∷◌, ◌++◌, Bytes, arith, length, length-append, append-nil,
  append_assoc, ltb, if◌then◌else◌, lt→ltb, le→not-ltb, Bool-cases, inl, inr,
}

pub record Absorbed (S : Type 0) : Type 0 where
  pub state : S
  pub waiting : Bytes

module _ {S : Type 0} (transform : S → Bytes → S) (block : ℕ) where
  -- One byte: it waits, or it completes a block.
  pub feed : ℕ → Absorbed S → Absorbed S
  feed x v =
      if ltb (length v.waiting + 1) block
      then record v { waiting = v.waiting ++ (x ∷ []) }
      else record { state = transform v.state (v.waiting ++ (x ∷ [])); waiting = [] }

  -- The bytes of a message in turn.
  unfoldable pub absorb : Absorbed S → Bytes → Absorbed S
  absorb v [] = v
  absorb v (x ∷ xs) = absorb (feed x v) xs

  pub absorb-append :
      (v : Absorbed S) (xs ys : Bytes) → absorb v (xs ++ ys) ≡ absorb (absorb v xs) ys
  unfolding absorb
  absorb-append v [] ys = refl
  absorb-append v (x ∷ xs) ys = absorb-append (feed x v) xs ys

  -- Too few bytes for a block wait.
  pub absorb_few :
      (st : S) (p xs : Bytes)
      → length p + length xs < block
      → absorb (record { state = st; waiting = p }) xs ≡ record { state = st; waiting = p ++ xs }
  unfolding absorb feed
  absorb_few st p [] h = rw append-nil
  absorb_few st p (x ∷ xs) h = rw (lt→ltb (length p + 1) block (omega arith)) (
      absorb_few st (p ++ (x ∷ [])) xs (omega (arith, length-append p (x ∷ [])))
      ∙ ap (λ w. record { state = st; waiting = w }) (append_assoc p (x ∷ []) xs))

  -- The bytes that fill a block are transformed.
  pub absorb_full :
      (st : S) (p xs : Bytes)
      → length p < block
      → length p + length xs ≡ block
      → absorb (record { state = st; waiting = p }) xs
        ≡ record { state = transform st (p ++ xs); waiting = [] }
  unfolding absorb feed
  absorb_full st p [] h e = absurd (omega arith)
  absorb_full st p (x ∷ []) h e = rw (le→not-ltb (length p + 1) block (omega arith)) refl
  absorb_full st p (x ∷ y ∷ xs) h e = rw (lt→ltb (length p + 1) block (omega arith)) (
      absorb_full st (p ++ (x ∷ [])) (y ∷ xs) (omega (arith, length-append p (x ∷ [])))
        (omega (arith, length-append p (x ∷ [])))
      ∙ ap (λ w. record { state = transform st w; waiting = [] })
          (append_assoc p (x ∷ []) (y ∷ xs)))

  -- What every transform makes true stays true of the state.
  pub absorb-Keeps :
      (Good : S → Type 0)
      → ((st : S) (bytes : Bytes) → Good (transform st bytes))
      → (v : Absorbed S) (xs : Bytes) → Good v.state
      → Good (absorb v xs).state
  unfolding absorb feed
  absorb-Keeps Good every v [] h = h
  absorb-Keeps Good every v (x ∷ xs) h = elim (Bool-cases (ltb (length v.waiting + 1) block)) [
    | inl waits ↦ absorb-Keeps Good every (feed x v) xs (rw waits h)
    | inr full ↦ absorb-Keeps Good every (feed x v) xs (rw full (every _ _))
  ]
