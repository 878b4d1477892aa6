-- ===== src/Sha/Sha1/Schedule.antt =====
-- generic/sha1.c: SHA1Transform, whose five variables take turns and whose schedule is sixteen
-- words in place, against the compression function of FIPS 180.
use e2factory.Common.{
  ℕ, zero, suc, ◌+◌, ◌-◌, ◌%◌, ◌≤◌, ◌<◌, ◌≡◌, refl, ap, ap₂, ◌∙◌, sym, subst, bit_and, bit_xor,
  List, [], ◌∷◌, ◌++◌, Bytes, lt→ltb, le→not-ltb, get_or, set, length, length-append, append_assoc,
  append-nil, arith,
}
use e2factory.Common.Bits.{bit_and_15}
use e2factory.Sha.Words.{u32, load_le}
use e2factory.Sha.Window.{Window, Window-add, get_or-set, get_or-set_other}
use e2factory.Sha.Sha1.Turns.{step, steps, steps_add, rounds_from-steps}
use e2factory.Sha.Sha1.Fips.{
  round, rounds_all, rounds_all-append, next_word, extend, swapped, words_of, compressed,
}
use e2factory.Sha.Sha1.{
  Regs, Work, rol, words_le, blk0, blk, mix, constant, expand, mixed, transform,
}

mixed-round :
    (i v w x y z : ℕ) (l : List ℕ) (word : ℕ)
    → get_or l (bit_and i 15) 0 ≡ word
    → mixed i v w x y z l ≡ u32 (rol v 5 + mix i w x y + z + constant i + word)
unfolding mixed
mixed-round i v w x y z l word e =
    ap (λ k. u32 (z + (mix i w x y + k + constant i + rol v 5))) e ∙ ap u32 (omega arith)

-- A step whose expansion puts a known word in the place of the oldest.
step-round :
    (t word : ℕ) (l : List ℕ) (r : Regs)
    → length l ≡ 16
    → expand l t ≡ set l (t % 16) word
    → step t (record { l = l; regs = r })
      ≡ record { l = set l (t % 16) word; regs = round t word r }
unfolding round
step-round t word l r wide e =
    ap₂
      (λ (k : List ℕ) (x : ℕ). record {
        l = k;
        regs = record { a = x; b = r.a; c = rol r.b 30; d = r.c; e = r.d };
      })
      e
      (ap (mixed t r.a r.b r.c r.d r.e) e
        ∙ mixed-round t r.a r.b r.c r.d r.e (set l (t % 16) word) word (
            ap (λ k. get_or (set l (t % 16) word) k 0) (bit_and_15 t)
            ∙ get_or-set l (t % 16) word 0 (omega (arith, wide))))

-- The word that `blk` computes.
expand-later :
    (l s : List ℕ)
    → Window l s
    → 16 ≤ length s
    → expand l (length s) ≡ set l (length s % 16) (next_word s)
unfolding expand blk next_word
expand-later l s h long =
    rw (le→not-ltb (length s) 16 long, expand)
      (ap₂ (set l) (bit_and_15 (length s)) (
        ap (λ x. rol x 1)
          (ap₂ bit_xor
            (ap₂ bit_xor (ap₂ bit_xor (old 13 3 refl (omega arith)) (old 8 8 refl (omega arith)))
              (old 2 14 refl (omega arith)))
            (old 0 16 refl (omega arith)))))
  where
    old :
        (k back : ℕ)
        → k + back ≡ 16
        → 0 < back
        → get_or l (bit_and (length s + k) 15) 0 ≡ get_or s (length s - back) 0
    old k back e some_back =
        ap (λ i. get_or l i 0) (bit_and_15 (length s + k) ∙ omega arith)
        ∙ h.same (length s - back) (omega arith) (omega arith)

-- What `blk0` puts in the place of a word.
expand-first :
    (l : List ℕ) (t word : ℕ)
    → t < 16
    → get_or l t 0 ≡ word
    → expand l t ≡ set l (t % 16) (swapped word)
unfolding expand blk0
expand-first l t word early e =
    rw (lt→ltb t 16 early, expand) (ap₂ (set l) (omega arith) (ap swapped e))

-- After some steps: the buffer, and the variables.
record Reached (s : List ℕ) (start : Regs) (v : Work) : Type 0 where
  window : Window v.l s
  regs : v.regs ≡ rounds_all 0 s start

Reached-step :
    (s : List ℕ) (x : ℕ) (start : Regs) (l : List ℕ) (r : Regs)
    → Reached s start (record { l = l; regs = r })
    → Reached
        (s ++ (x ∷ []))
        start
        (record { l = set l (length s % 16) x; regs = round (length s) x r })
Reached-step s x start l r h =
    let from_none : 0 + length s ≡ length s = omega arith in
    record {
      window = Window-add l s x h.window;
      regs =
          ap (round (length s) x) h.regs
          ∙ sym (
              rounds_all-append 0 s x start ∙ ap (λ k. round k x (rounds_all 0 s start)) from_none);
    }

steps-later :
    (left : ℕ) (s : List ℕ) (start : Regs) (l : List ℕ) (r : Regs)
    → Reached s start (record { l = l; regs = r })
    → 16 ≤ length s
    → (steps left (length s) (record { l = l; regs = r })).regs ≡ rounds_all 0 (extend left s) start
unfolding steps extend
steps-later zero s start l r h long = h.regs
steps-later (suc left) s start l r h long =
    let x = next_word s in
    let longer : length s + 1 ≡ length (s ++ (x ∷ [])) = omega (arith, length-append s (x ∷ [])) in
    ap (λ (v : Work). v.regs)
      (ap₂ (steps left) longer
        (step-round (length s) x l r h.window.wide (expand-later l s h.window long)))
    ∙ steps-later left (s ++ (x ∷ [])) start _ _ (Reached-step s x start l r h)
        (omega (arith, length-append s (x ∷ [])))

steps-first :
    (left : ℕ) (block : Bytes) (s : List ℕ) (start : Regs) (l : List ℕ) (r : Regs)
    → Reached s start (record { l = l; regs = r })
    → left + length s ≡ 16
    → ((k : ℕ) → length s ≤ k → k < 16 → get_or l k 0 ≡ load_le block k)
    → Reached
        (s ++ words_of left (length s) block)
        start
        (steps left (length s) (record { l = l; regs = r }))
unfolding steps words_of
steps-first zero block s start l r h fits raw = rw append-nil h
steps-first (suc left) block s start l r h fits raw =
    let x = swapped (load_le block (length s)) in
    let longer : length (s ++ (x ∷ [])) ≡ length s + 1 = omega (arith, length-append s (x ∷ [])) in
    subst
      (λ v.
        Reached (s ++ (x ∷ words_of left (length s + 1) block)) start (steps left (length s + 1) v))
      (sym (
        step-round (length s) x l r h.window.wide (
          expand-first l (length s) (load_le block (length s)) (omega arith)
            (raw (length s) (omega arith) (omega arith)))))
      (subst
        (λ k.
          Reached (s ++ (x ∷ words_of left k block)) start
            (steps left k (record { l = set l (length s % 16) x; regs = round (length s) x r })))
        longer
        (rw append_assoc at (
          steps-first left block (s ++ (x ∷ [])) start _ _ (Reached-step s x start l r h)
            (omega (arith, length-append s (x ∷ [])))
            (λ k late early.
              get_or-set_other l k (length s % 16) x 0
                (λ e. absurd (omega (arith, e, length-append s (x ∷ []))))
              ∙ raw k (omega (arith, length-append s (x ∷ []))) early))))

get_or-words_le :
    (n i k : ℕ) (block : Bytes) → k < n → get_or (words_le n i block) k 0 ≡ load_le block (i + k)
unfolding words_le
get_or-words_le zero i k block h = absurd (omega arith)
get_or-words_le (suc n) i zero block h =
    let same : i ≡ i + zero = omega arith in ap (load_le block) same
get_or-words_le (suc n) i (suc k) block h =
    let same : i + 1 + k ≡ i + suc k = omega arith in
    get_or-words_le n (i + 1) k block (omega arith) ∙ ap (load_le block) same

-- SHA1Transform, with its words in place and its variables in turn, is the compression function
-- over the whole schedule.
pub transform-compressed_sha1 :
    (st : Regs) (block : Bytes) → transform st block ≡ compressed st block
unfolding transform compressed words_le rounds_all words_of
transform-compressed_sha1 st block =
    let l =
      steps-first 16 block [] st (words_le 16 0 block) st
        (record {
          window = record { wide = refl; same = λ i h. absurd (omega arith) };
          regs = refl;
        })
        refl
        (λ k late early. get_or-words_le 16 0 k block early ∙ ap (load_le block) (omega arith)) in
    let first = steps 16 0 (record { l = words_le 16 0 block; regs = st }) in
    let sixteen : 16 ≡ length (words_of 16 0 block) = refl in
    ap
      (λ (r : Regs). record {
        a = u32 (st.a + r.a);
        b = u32 (st.b + r.b);
        c = u32 (st.c + r.c);
        d = u32 (st.d + r.d);
        e = u32 (st.e + r.e);
      })
      (ap (λ (v : Work). v.regs)
          (rounds_from-steps 16 0 (record { l = words_le 16 0 block; regs = st })
            ∙ sym (steps_add 16 64 0 (record { l = words_le 16 0 block; regs = st })))
        ∙ steps-later 64 (words_of 16 0 block) st first.l first.regs l (omega arith))
