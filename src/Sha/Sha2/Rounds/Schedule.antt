-- ===== src/Sha/Sha2/Rounds/Schedule.antt =====
-- generic/sha2.c: the schedule in sixteen words, of which each round replaces the oldest, against
-- the schedule of FIPS 180, which holds the words of all rounds.
use e2factory.Common.{
  ℕ, zero, suc, ◌+◌, ◌-◌, ◌%◌, ◌≤◌, ◌<◌, ◌≡◌, refl, ap, ap₂, ◌∙◌, sym, bit_and, List, [], ◌∷◌, ◌++◌,
  Bytes, get_or, set, length, length-append, append_assoc, append-nil, replicate, arith, subst,
}
use e2factory.Common.Bits.{bit_and_15}
use e2factory.Sha.Window.{Window, Window-add}
use e2factory.Sha.Sha2.Rounds.{Regs, Words, round, rounds_in, rounds_on, expand, add, transform}

module _ (o : Words) where
  -- The words of a block from word `j` on.
  unfoldable pub words_of : ℕ → ℕ → Bytes → List ℕ
  words_of zero j block = []
  words_of (suc n) j block = o.load block j ∷ words_of n (j + 1) block

  -- W of FIPS 180 for the next round.
  pub next_word : List ℕ → ℕ
  next_word s =
      let t = length s in
      o.word (
        o.small_sigma1 (get_or s (t - 2) 0)
        + get_or s (t - 7) 0
        + o.small_sigma0 (get_or s (t - 15) 0)
        + get_or s (t - 16) 0)

  pub extend : ℕ → List ℕ → List ℕ
  extend zero s = s
  extend (suc n) s = extend n (s ++ (next_word s ∷ []))

  -- All rounds of a schedule.
  pub rounds_all : ℕ → List ℕ → Regs → Regs
  rounds_all j [] r = r
  rounds_all j (w ∷ ws) r = rounds_all (j + 1) ws (round o j w r)

  rounds_all-append :
      (j : ℕ) (s : List ℕ) (x : ℕ) (r : Regs)
      → rounds_all j (s ++ (x ∷ [])) r ≡ round o (j + length s) x (rounds_all j s r)
  unfolding rounds_all
  rounds_all-append j [] x r = let same : j ≡ j + 0 = omega arith in ap (λ k. round o k x r) same
  rounds_all-append j (w ∷ ws) x r =
      let same : j + 1 + length ws ≡ j + suc (length ws) = omega arith in
      rounds_all-append (j + 1) ws x (round o j w r)
      ∙ ap (λ k. round o k x (rounds_all (j + 1) ws (round o j w r))) same

  -- The word that the second loop computes.
  expand-next_word :
      (w s : List ℕ) → Window w s → 16 ≤ length s → expand o (length s) w ≡ next_word s
  unfolding expand next_word
  expand-next_word w s h long =
      ap₂ (λ x y. o.word (x + y)) (old 0 16 refl (omega arith))
        (ap₂ (λ x y. x + y)
          (ap₂ (λ x y. o.small_sigma1 x + y) (old 14 2 refl (omega arith))
            (old 9 7 refl (omega arith)))
          (ap o.small_sigma0 (old 1 15 refl (omega arith))))
      ∙ ap o.word (omega arith)
    where
      old :
          (k back : ℕ)
          → k + back ≡ 16
          → 0 < back
          → get_or w (bit_and (length s + k) 0x0f) 0 ≡ get_or s (length s - back) 0
      old k back e some_back =
          ap (λ i. get_or w i 0) (bit_and_15 (length s + k) ∙ omega arith)
          ∙ h.same (length s - back) (omega arith) (omega arith)

  -- The second loop of the code, from a schedule whose last words the buffer holds.
  rounds_on-rounds_all :
      (left : ℕ) (w s : List ℕ) (r start : Regs)
      → Window w s
      → 16 ≤ length s
      → r ≡ rounds_all 0 s start
      → (rounds_on o left (length s) w r).1 ≡ rounds_all 0 (extend left s) start
  unfolding rounds_on extend
  rounds_on-rounds_all zero w s r start h long e = e
  rounds_on-rounds_all (suc left) w s r start h long e =
      ap (λ v. v.1)
        (ap₂ (λ k x. rounds_on o left (length s + 1) (set w k x) (round o (length s) x r))
            (bit_and_15 (length s)) (expand-next_word w s h long)
          ∙ ap
              (λ k.
                rounds_on o left k (set w (length s % 16) (next_word s))
                  (round o (length s) (next_word s) r))
              longer)
      ∙ rounds_on-rounds_all left _ (s ++ (next_word s ∷ [])) _ start
          (Window-add w s (next_word s) h) (omega (arith, length-append s (next_word s ∷ [])))
          (ap (round o (length s) (next_word s)) e
            ∙ sym (
                rounds_all-append 0 s (next_word s) start
                ∙ ap (λ k. round o k (next_word s) (rounds_all 0 s start)) from_none))
    where
      longer : length s + 1 ≡ length (s ++ (next_word s ∷ []))
      longer = omega (arith, length-append s (next_word s ∷ []))

      from_none : 0 + length s ≡ length s
      from_none = omega arith

  -- What the first loop leaves.
  record Loaded (s : List ℕ) (start : Regs) (v : List ℕ × Regs) : Type 0 where
    window : Window v.0 s
    state : v.1 ≡ rounds_all 0 s start

  rounds_in-Loaded :
      (left : ℕ) (block : Bytes) (w s : List ℕ) (r start : Regs)
      → Window w s
      → left + length s ≡ 16
      → r ≡ rounds_all 0 s start
      → Loaded (s ++ words_of left (length s) block) start (rounds_in o left (length s) block w r)
  unfolding rounds_in words_of
  rounds_in-Loaded zero block w s r start h fits e =
      rw append-nil (record { window = h; state = e })
  rounds_in-Loaded (suc left) block w s r start h fits e =
      let x = o.load block (length s) in
      let longer : length s + 1 ≡ length (s ++ (x ∷ [])) =
        omega (arith, length-append s (x ∷ [])) in
      let within : length s % 16 ≡ length s = omega arith in
      let from_none : 0 + length s ≡ length s = omega arith in
      subst
        (λ k.
          Loaded (s ++ (x ∷ words_of left k block)) start
            (rounds_in o left k block (set w (length s) x) (round o (length s) x r)))
        (sym longer)
        (rw append_assoc at (
          rounds_in-Loaded left block (set w (length s) x) (s ++ (x ∷ [])) (round o (length s) x r)
            start (rw within at (Window-add w s x h)) (omega (arith, length-append s (x ∷ [])))
            (ap (round o (length s) x) e
              ∙ sym (
                  rounds_all-append 0 s x start
                  ∙ ap (λ k. round o k x (rounds_all 0 s start)) from_none))))

  length-words_of : (n j : ℕ) (block : Bytes) → length (words_of n j block) ≡ n
  unfolding words_of
  length-words_of zero j block = refl
  length-words_of (suc n) j block = ap suc (length-words_of n (j + 1) block)

  -- The compression function of FIPS 180: the schedule of all rounds first, then the rounds.
  pub compressed : Regs → Bytes → Regs
  compressed state block = add o state (rounds_all 0 (extend o.later (words_of 16 0 block)) state)

  -- The transform with its schedule of sixteen words is the compression function over the whole
  -- schedule.
  pub transform-compressed :
      (state : Regs) (block : Bytes) → (transform o state block).0 ≡ compressed state block
  unfolding transform compressed rounds_all
  transform-compressed state block =
      let l =
        rounds_in-Loaded 16 block (replicate 16 0) [] state state
          (record { wide = refl; same = λ i h. absurd (omega arith) }) refl refl in
      let sixteen : 16 ≡ length (words_of 16 0 block) = sym (length-words_of 16 0 block) in
      ap (add o state) (
        ap
          (λ k.
            (rounds_on o o.later k (rounds_in o 16 0 block (replicate 16 0) state).0
              (rounds_in o 16 0 block (replicate 16 0) state).1).1)
          sixteen
        ∙ rounds_on-rounds_all o.later _ (words_of 16 0 block) _ state l.window
            (omega (arith, sixteen)) l.state)
