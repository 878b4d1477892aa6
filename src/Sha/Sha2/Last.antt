-- ===== src/Sha/Sha2/Last.antt =====
-- generic/sha2.c: where the count does not fit behind the mark, and the last transform.
use e2factory.Common.{
  ℕ, ◌+◌, ◌-◌, ◌≤◌, ◌<◌, ◌≡◌, refl, ap, ap₂, ◌∙◌, sym, subst, Bool-cases, inl, inr, some, [], ◌∷◌,
  ◌++◌, Bytes, arith, length, length-append, length-replicate, take, replicate, take_all, leb, ◌==◌,
}
use e2factory.Common.Replicate.{replicate_add, take-take, take-replicate, take-replicate_all}
use e2factory.Sha.Absorb.{absorb-append, absorb_few, absorb_full}
use e2factory.Sha.Sha2.{Machine, Context, run, store, clear, spill, pad, last}
use e2factory.Sha.Sha2.Laws.{IsMachine}
use e2factory.Sha.Sha2.Store.{Begins, Written, store-Written}
use e2factory.Sha.Sha2.Refinement.{compress, used, view, taken, IsContext}
use e2factory.Sha.Sha2.Padding.{
  zeros, padding, Padded, waiting, length-waiting, short-Padded, idle-Padded, mark-Written,
  zeros-Written,
}

module _ (m : Machine) (l : IsMachine m) where
  -- In two blocks.
  spill-Padded :
      (c marked : Context m)
      → IsContext m l c
      → Begins m marked (waiting m l c ++ 0x80 ∷ [])
      → marked.state ≡ c.state
      → Padded m l c
          (0x80 ∷ replicate (m.block - (used m c + 1) + m.short) 0)
          (spill m marked (used m c + 1))
  unfolding spill
  spill-Padded c marked valid b same =
      rw (spill, w.returns)
        (record {
          next = record (run m full w.content) { buffer = v.content };
          front = replicate m.short 0;
          returns = v.returns;
          begins = record {
            sized = v.begins.sized;
            starts =
                ap (λ k. take k v.content) (length-replicate {A = ℕ} m.short 0)
                ∙ sym (take-take m.short m.cleared v.content l.short-le-cleared)
                ∙ ap (take m.short) cleared
                ∙ take-replicate m.short m.cleared l.short-le-cleared;
          };
          complete = length-replicate {A = ℕ} m.short 0;
          absorbs = sym (
              ap (taken m (view m c)) (ap (λ w. 0x80 ∷ w) (replicate_add n m.short))
              ∙ absorb-append (compress m) m.block (view m c) (0x80 ∷ replicate n 0)
                  (replicate m.short 0)
              ∙ ap (λ v. taken m v (replicate m.short 0)) block
              ∙ absorb_few (compress m) m.block (compress m marked.state w.content) []
                  (replicate m.short 0)
                  (omega (arith, length-replicate {A = ℕ} m.short 0, l.short-lt)));
        })
    where
      n : ℕ
      n = m.block - (used m c + 1)

      lt : used m c < m.block
      lt = l.waits-lt c.bitcount

      w : Written m marked (waiting m l c ++ 0x80 ∷ replicate n 0) (clear m marked (used m c + 1) n)
      w = zeros-Written m l c marked n valid b (omega (arith, lt))

      full : Context m
      full = record marked { buffer = w.content }

      v :
          Written m
            (run m full w.content)
            ([] ++ take m.cleared (replicate m.cleared 0))
            (clear m (run m full w.content) 0 m.cleared)
      v =
          store-Written m (run m full w.content) [] (replicate m.cleared 0) 0 m.cleared
            (record { sized = l.length_transform marked.state w.content; starts = refl }) refl
            (omega (arith, l.cleared-le)) (omega (arith, length-replicate {A = ℕ} m.cleared 0))

      cleared : take m.cleared v.content ≡ replicate m.cleared 0
      cleared =
          ap (λ k. take k v.content)
            (sym (ap length (take-replicate_all m.cleared) ∙ length-replicate {A = ℕ} m.cleared 0))
          ∙ v.begins.starts
          ∙ take-replicate_all m.cleared

      size : length (waiting m l c ++ 0x80 ∷ replicate n 0) ≡ m.block
      size = omega (
        arith,
        length-append (waiting m l c) (0x80 ∷ replicate n 0),
        length-waiting m l c valid,
        length-replicate {A = ℕ} n 0,
        lt,
      )

      whole : w.content ≡ waiting m l c ++ 0x80 ∷ replicate n 0
      whole =
          sym (take_all m.block w.content (omega (arith, w.begins.sized)))
          ∙ ap (λ k. take k w.content) (sym size)
          ∙ w.begins.starts

      block :
          taken m (view m c) (0x80 ∷ replicate n 0)
          ≡ record { state = compress m marked.state w.content; waiting = [] }
      block =
          unfold waiting in
          absorb_full (compress m) m.block c.state (waiting m l c) (0x80 ∷ replicate n 0)
            (omega (arith, length-waiting m l c valid, lt))
            (omega (arith, size, length-append (waiting m l c) (0x80 ∷ replicate n 0)))
          ∙ ap₂ (λ (st : m.State) (u : Bytes). record { state = compress m st u; waiting = [] })
              (sym same) (sym whole)

  pad-Padded : (c : Context m) → IsContext m l c → Padded m l c (padding m l (used m c)) (pad m c)
  unfolding pad
  pad-Padded c valid = elim (Bool-cases (used m c == 0)) [
    | inl idle ↦
        let none_wait : used m c ≡ 0 = ground arith in
        let all : zeros m l (used m c) ≡ m.short - 1 = ground (arith, none_wait, l.short_pos) in
        subst (λ k. Padded m l c (0x80 ∷ replicate k 0) (pad m c)) (sym all)
          (rw idle (idle-Padded m l c valid none_wait))
    | inr some_wait ↦ elim (Bool-cases (leb (used m c + 1) m.short)) [
      | inl room ↦
          let rest : zeros m l (used m c) ≡ m.short - (used m c + 1) = rw room refl in
          let within : used m c + 1 ≤ m.short = ground arith in
          let w =
            zeros-Written m l c marked (m.short - (used m c + 1)) valid mark.begins
              (omega (arith, within, l.short-lt)) in
          subst (λ k. Padded m l c (0x80 ∷ replicate k 0) (pad m c)) (sym rest)
            (rw (some_wait, mark.returns, room)
              (short-Padded m l c (record marked { buffer = w.content }) (m.short - (used m c + 1))
                _ valid (omega (arith, within)) w.returns refl w.begins))
      | inr full ↦
          let rest : zeros m l (used m c) ≡ m.block - (used m c + 1) + m.short = rw full refl in
          subst (λ k. Padded m l c (0x80 ∷ replicate k 0) (pad m c)) (sym rest)
            (rw (some_wait, mark.returns, full) (spill-Padded c marked valid mark.begins refl))
    ]
  ]
    where
      mark : Written m c (waiting m l c ++ 0x80 ∷ []) (store m c (used m c) (0x80 ∷ []) 1)
      mark = mark-Written m l c valid

      marked : Context m
      marked = record c { buffer = mark.content }

  -- The last transforms end, write nothing outside the buffer, and leave the state of the message
  -- with the mark, the zeros m l and the count behind it, with nothing left over.
  pub last-absorbs :
      (c : Context m)
      → IsContext m l c
      → (done : Context m) × (last m c ≡ some done)
        × (record { state = done.state; waiting = [] }
            ≡ taken m (view m c) (padding m l (used m c) ++ m.count_bytes c.bitcount))
  unfolding last
  last-absorbs c valid = (
    run m (record (p.next) { buffer = w.content }) w.content,
    rw (p.returns, last) (rw (w.returns, last) refl),
    sym (
        absorb-append (compress m) m.block (view m c) (padding m l (used m c)) bytes
        ∙ ap (λ v. taken m v bytes) (sym p.absorbs)
        ∙ absorb_full (compress m) m.block p.next.state p.front bytes
            (omega (arith, p.complete, l.short-lt))
            (omega (arith, p.complete, l.length_count c.bitcount, l.short-lt))
        ∙ ap (λ u. record { state = compress m p.next.state u; waiting = [] }) (sym whole)),
  )
    where
      bytes : Bytes
      bytes = m.count_bytes c.bitcount

      p : Padded m l c (padding m l (used m c)) (pad m c)
      p = pad-Padded c valid

      w :
          Written m p.next
            (p.front ++ take (m.block - m.short) bytes)
            (store m p.next m.short bytes (m.block - m.short))
      w =
          store-Written m p.next p.front bytes m.short (m.block - m.short) p.begins p.complete
            (omega (arith, l.short-lt)) (omega (arith, l.length_count c.bitcount))

      all : p.front ++ take (m.block - m.short) bytes ≡ p.front ++ bytes
      all =
          ap (λ u. p.front ++ u)
            (take_all (m.block - m.short) bytes (omega (arith, l.length_count c.bitcount)))

      size : length (p.front ++ bytes) ≡ m.block
      size =
          omega
            (arith, length-append p.front bytes, p.complete, l.length_count c.bitcount, l.short-lt)

      whole : w.content ≡ p.front ++ bytes
      whole =
          sym (take_all m.block w.content (omega (arith, w.begins.sized)))
          ∙ ap (λ k. take k w.content) (sym size ∙ sym (ap length all))
          ∙ w.begins.starts
          ∙ all
