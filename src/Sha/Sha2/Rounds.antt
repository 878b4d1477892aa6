-- ===== src/Sha/Sha2/Rounds.antt =====
-- generic/sha2.c: SHA256_Transform and SHA512_Transform without SHA2_UNROLL_TRANSFORM, over the
-- functions on words and the constants in which they differ.
pub mod Range
pub mod Schedule
use e2factory.Common.{
  ℕ, zero, suc, ◌+◌, bit_and, bit_xor, List, [], ◌∷◌, ◌++◌, Bytes, get_or, set, replicate,
}

-- `context->state`, also the working variables a to h.
pub record Regs : Type 0 where
  pub a : ℕ
  pub b : ℕ
  pub c : ℕ
  pub d : ℕ
  pub e : ℕ
  pub f : ℕ
  pub g : ℕ
  pub h : ℕ

pub record Words : Type 0 where
  -- What remains of a sum.
  pub word : ℕ → ℕ
  pub ch : ℕ → ℕ → ℕ → ℕ
  -- Sigma0, Sigma1, sigma0 and sigma1
  pub big_sigma0 : ℕ → ℕ
  pub big_sigma1 : ℕ → ℕ
  pub small_sigma0 : ℕ → ℕ
  pub small_sigma1 : ℕ → ℕ
  -- K256 and K512
  pub constants : List ℕ
  -- A word of the block, in host byte order.
  pub load : Bytes → ℕ → ℕ
  -- A word in memory.
  pub bytes : ℕ → Bytes
  -- The rounds after the first 16.
  pub later : ℕ

abbrev pub words : Regs → List ℕ
words r = r.a ∷ r.b ∷ r.c ∷ r.d ∷ r.e ∷ r.f ∷ r.g ∷ r.h ∷ []

-- Words in memory, each by its bytes.
abbrev pub emit : (ℕ → Bytes) → List ℕ → Bytes
emit bytes [] = []
emit bytes (w ∷ ws) = bytes w ++ emit bytes ws

-- Maj
unfoldable pub maj : ℕ → ℕ → ℕ → ℕ
maj x y z = bit_xor (bit_xor (bit_and x y) (bit_and x z)) (bit_and y z)

module _ (o : Words) where
  -- One round, with the word of the message.
  unfoldable pub round : ℕ → ℕ → Regs → Regs
  unfolding maj
  round j w r =
      let t1 = o.word (r.h + o.big_sigma1 r.e + o.ch r.e r.f r.g + get_or o.constants j 0 + w) in
      let t2 = o.word (o.big_sigma0 r.a + maj r.a r.b r.c) in
      record {
        a = o.word (t1 + t2);
        b = r.a;
        c = r.b;
        d = r.c;
        e = o.word (r.d + t1);
        f = r.e;
        g = r.f;
        h = r.g;
      }

  -- The first loop: the words of the block go to the schedule.
  unfoldable pub rounds_in : ℕ → ℕ → Bytes → List ℕ → Regs → List ℕ × Regs
  unfolding round
  rounds_in zero j block w r = (w, r)
  rounds_in (suc left) j block w r =
      let word = o.load block j in rounds_in left (j + 1) block (set w j word) (round j word r)

  -- What the second loop puts in the place of the oldest word.
  unfoldable pub expand : ℕ → List ℕ → ℕ
  expand j w =
      let old = λ (i : ℕ). get_or w (bit_and (j + i) 0x0f) 0 in
      o.word (old 0 + (o.small_sigma1 (old 14) + old 9 + o.small_sigma0 (old 1)))

  -- The second loop: the expansion of the block.
  unfoldable pub rounds_on : ℕ → ℕ → List ℕ → Regs → List ℕ × Regs
  unfolding round expand
  rounds_on zero j w r = (w, r)
  rounds_on (suc left) j w r =
      let word = expand j w in rounds_on left (j + 1) (set w (bit_and j 0x0f) word) (round j word r)

  abbrev pub add : Regs → Regs → Regs
  add x y = record {
    a = o.word (x.a + y.a);
    b = o.word (x.b + y.b);
    c = o.word (x.c + y.c);
    d = o.word (x.d + y.d);
    e = o.word (x.e + y.e);
    f = o.word (x.f + y.f);
    g = o.word (x.g + y.g);
    h = o.word (x.h + y.h);
  }

  -- SHA256_Transform and SHA512_Transform: the state, and the schedule that stays in the buffer.
  -- The block may be the buffer itself: each word is read before it is replaced.
  unfoldable pub transform : Regs → Bytes → Regs × Bytes
  unfolding rounds_in rounds_on
  transform state block =
      let first = rounds_in 16 0 block (replicate 16 0) state in
      let last = rounds_on o.later 16 first.0 first.1 in (add state last.1, emit o.bytes last.0)
