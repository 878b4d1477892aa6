-- ===== src/Sha/Sha2/Blocks.antt =====
-- generic/sha2.c: the loop over whole blocks, and the whole update.
use e2factory.Common.{
  ℕ, zero, suc, ◌+◌, ◌-◌, ◌≤◌, ◌<◌, ◌≡◌, refl, ap, ◌∙◌, sym, subst, Bool-cases, inl, inr, ◌++◌,
  Bytes, arith, length, length-append, length-take, length-drop, take, drop, take_all, leb, ltb,
  ◌==◌,
}
use e2factory.Sha.Sha2.{Machine, Context, run, count, store, keep, blocks_from, fill_and_go, update}
use e2factory.Sha.Sha2.Laws.{IsMachine}
use e2factory.Sha.Sha2.Store.{Written}
use e2factory.Sha.Sha2.Refinement.{
  used, IsContext, Updated, used-lt, store-used, keep-Updated, block-absorbs, then-Updated,
  nothing-Updated, run-IsContext,
}

module _ (m : Machine) (l : IsMachine m) where
  blocks_from-Updated :
      (fuel : ℕ) (c : Context m) (rest : Bytes) (len : ℕ)
      → IsContext m l c
      → used m c ≡ 0
      → length rest ≡ len
      → len < fuel
      → Updated m l c rest (blocks_from m fuel c rest len)
  unfolding blocks_from
  blocks_from-Updated zero c rest len valid idle same enough = absurd (omega arith)
  blocks_from-Updated (suc fuel) c rest len valid idle same enough =
      elim (Bool-cases (leb m.block len)) [
        | inl whole ↦
            let next = run m (count m c m.block) (take m.block rest) in
            let long : m.block ≤ len = ground arith in
            rw whole (
              then-Updated m l c next rest m.block _ (omega arith)
                (block-absorbs m l c next (take m.block rest) (take m.block rest) m.block valid
                  (omega arith) (omega (arith, used-lt m l c))
                  (omega (arith, length-take m.block rest))
                  (ap (λ u. take u c.buffer ++ take m.block rest) (sym idle)) refl)
                (l.value-add c.bitcount m.block valid.counted (omega arith))
                (blocks_from-Updated fuel next (drop m.block rest) (len - m.block)
                  (run-IsContext m l c m.block (take m.block rest) valid)
                  (l.waits-full c.bitcount m.block valid.counted (omega arith))
                  (omega (arith, length-drop m.block rest)) (omega (arith, used-lt m l c))))
        | inr short ↦ elim (Bool-cases (ltb 0 len)) [
          | inl more ↦
              rw (short, more)
                (subst (λ u. Updated m l c rest (keep m c u rest len)) idle
                  (subst (λ n. Updated m l c rest (keep m c (used m c) rest n)) same
                    (keep-Updated m l c rest valid (ground arith))))
          | inr none_left ↦ rw (short, none_left) (nothing-Updated m l c rest valid (ground arith))
        ]
      ]

  fill_and_go-Updated :
      (c : Context m) (input : Bytes)
      → IsContext m l c
      → m.block ≤ used m c + length input
      → Updated m l c input (fill_and_go m c (used m c) input (length input))
  unfolding fill_and_go
  fill_and_go-Updated c input valid fills =
      rw (fill_and_go, w.returns)
        (then-Updated m l c next input free _ (omega (arith, used-lt m l c))
          (block-absorbs m l c next w.content (take free input) free valid together
            (omega (arith, used-lt m l c)) (omega (arith, length-take free input, used-lt m l c))
            whole refl)
          (l.value-add c.bitcount free valid.counted (omega arith))
          (blocks_from-Updated (length input + 1) next (drop free input) (length input - free)
            (run-IsContext m l c free w.content valid)
            (l.waits-full c.bitcount free valid.counted together)
            (omega (arith, length-drop free input)) (omega arith)))
    where
      free : ℕ
      free = m.block - used m c

      together : used m c + free ≡ m.block
      together = omega (arith, used-lt m l c)

      w :
          Written m c
            (take (used m c) c.buffer ++ take free input)
            (store m c (used m c) input free)
      w =
          store-used m l c input free valid (omega (arith, used-lt m l c))
            (omega (arith, used-lt m l c))

      next : Context m
      next = run m (count m c free) w.content

      sizes : length w.content ≡ length (take (used m c) c.buffer ++ take free input)
      sizes = omega (
        arith,
        w.begins.sized,
        length-append (take (used m c) c.buffer) (take free input),
        length-take (used m c) c.buffer,
        length-take free input,
        used-lt m l c,
        valid.sized,
        fills,
      )

      whole : w.content ≡ take (used m c) c.buffer ++ take free input
      whole =
          sym (take_all (length w.content) w.content (omega arith))
          ∙ ap (λ k. take k w.content) sizes
          ∙ w.begins.starts

  -- Any update of a context whose count is in range and whose buffer has its size ends, and writes
  -- nothing outside the buffer.
  pub update-Updated :
      (c : Context m) (input : Bytes)
      → IsContext m l c
      → Updated m l c input (update m c input (length input))
  unfolding update
  update-Updated c input valid = elim (Bool-cases (length input == 0)) [
    | inl nothing ↦ rw nothing (nothing-Updated m l c input valid (ground arith))
    | inr something ↦ elim (Bool-cases (used m c == 0)) [
      | inl idle ↦
          rw (something, idle)
            (blocks_from-Updated (length input + 1) c input (length input) valid (ground arith) refl
              (omega arith))
      | inr waits ↦ elim (Bool-cases (leb (m.block - used m c) (length input))) [
        | inl fills ↦
            rw (something, waits, fills) (fill_and_go-Updated c input valid (ground arith))
        | inr few ↦ rw (something, waits, few) (keep-Updated m l c input valid (ground arith))
      ]
    ]
  ]
