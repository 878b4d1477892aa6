-- ===== src/Sha/Sha2/Rounds/Range.antt =====
-- generic/sha2.c: how much a transform leaves in the buffer, and the range of its words.
use e2factory.Common.{
  ℕ, zero, suc, ◌+◌, ◌*◌, ◌<◌, ◌≡◌, refl, ◌∙◌, bit_and, List, [], ◌∷◌, Bytes, arith, length,
  length-append, length-set, replicate, ap,
}
use e2factory.Sha.Sha2.Rounds.{Regs, Words, words, emit, rounds_in, rounds_on, transform}

module _ (o : Words) where
  length-rounds_in :
      (left j : ℕ) (block : Bytes) (w : List ℕ) (r : Regs)
      → length (rounds_in o left j block w r).0 ≡ length w
  unfolding rounds_in
  length-rounds_in zero j block w r = refl
  length-rounds_in (suc left) j block w r =
      length-rounds_in left (j + 1) block _ _ ∙ length-set w j _

  length-rounds_on :
      (left j : ℕ) (w : List ℕ) (r : Regs) → length (rounds_on o left j w r).0 ≡ length w
  unfolding rounds_on
  length-rounds_on zero j w r = refl
  length-rounds_on (suc left) j w r =
      length-rounds_on left (j + 1) _ _ ∙ length-set w (bit_and j 0x0f) _

  -- Sixteen words stay in the buffer.
  pub length-transform :
      (size : ℕ)
      → ((w : ℕ) → length (o.bytes w) ≡ size)
      → (state : Regs) (block : Bytes) → length (transform o state block).1 ≡ 16 * size
  unfolding transform
  length-transform size sized state block =
      length-emit (rounds_on o o.later 16 first.0 first.1).0
      ∙ ap (λ n. n * size)
          (length-rounds_on o.later 16 first.0 first.1
            ∙ length-rounds_in 16 0 block (replicate 16 0) state)
    where
      first : List ℕ × Regs
      first = rounds_in o 16 0 block (replicate 16 0) state

      length-emit : (ws : List ℕ) → length (emit o.bytes ws) ≡ length ws * size
      length-emit [] = omega arith
      length-emit (w ∷ ws) =
          length-append (o.bytes w) (emit o.bytes ws) ∙ omega (arith, sized w, length-emit ws)

-- Every word is below a bound.
abbrev pub Below : ℕ → List ℕ → Type 0
Below bound [] = Unit
Below bound (w ∷ ws) = (w < bound) × Below bound ws

pub Below-transform :
    (o : Words) (bound : ℕ)
    → ((n : ℕ) → o.word n < bound)
    → (state : Regs) (block : Bytes) → Below bound (words (transform o state block).0)
unfolding transform
Below-transform o bound small state block =
    (small _, (small _, (small _, (small _, (small _, (small _, (small _, (small _, tt))))))))

pub emit_same :
    (bound : ℕ) (f g : ℕ → Bytes)
    → ((w : ℕ) → w < bound → f w ≡ g w)
    → (ws : List ℕ) → Below bound ws
    → emit f ws ≡ emit g ws
emit_same bound f g same [] h = refl
emit_same bound f g same (w ∷ ws) (p, h) = rw (same w p, emit_same bound f g same ws h) refl
