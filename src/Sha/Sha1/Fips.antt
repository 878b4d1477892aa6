-- ===== src/Sha/Sha1/Fips.antt =====
-- The compression function of SHA-1 as FIPS 180 has it, over the functions on words of
-- generic/sha1.c, to compare SHA1Transform with.
use e2factory.Common.{
  ℕ, zero, suc, ◌+◌, ◌-◌, ◌≡◌, ap, ◌∙◌, bit_and, bit_or, bit_xor, List, [], ◌∷◌, ◌++◌, Bytes,
  get_or, length, arith,
}
use e2factory.Sha.Words.{u32, load_le}
use e2factory.Sha.Sha1.{Regs, rol, mix, constant}

-- A round as FIPS 180 has it, with its word.
unfoldable pub round : ℕ → ℕ → Regs → Regs
round t x r = record {
  a = u32 (rol r.a 5 + mix t r.b r.c r.d + r.e + constant t + x);
  b = r.a;
  c = rol r.b 30;
  d = r.c;
  e = r.d;
}

-- All rounds of a schedule.
unfoldable pub rounds_all : ℕ → List ℕ → Regs → Regs
rounds_all t [] r = r
rounds_all t (x ∷ xs) r = rounds_all (t + 1) xs (round t x r)

pub rounds_all-append :
    (t : ℕ) (s : List ℕ) (x : ℕ) (r : Regs)
    → rounds_all t (s ++ (x ∷ [])) r ≡ round (t + length s) x (rounds_all t s r)
unfolding rounds_all
rounds_all-append t [] x r = let same : t ≡ t + 0 = omega arith in ap (λ k. round k x r) same
rounds_all-append t (w ∷ ws) x r =
    let same : t + 1 + length ws ≡ t + suc (length ws) = omega arith in
    rounds_all-append (t + 1) ws x (round t w r)
    ∙ ap (λ k. round k x (rounds_all (t + 1) ws (round t w r))) same

-- W of FIPS 180 for the next round.
unfoldable pub next_word : List ℕ → ℕ
next_word s =
    let t = length s in
    rol
      (bit_xor (bit_xor (bit_xor (get_or s (t - 3) 0) (get_or s (t - 8) 0)) (get_or s (t - 14) 0))
        (get_or s (t - 16) 0))
      1

unfoldable pub extend : ℕ → List ℕ → List ℕ
extend zero s = s
extend (suc n) s = extend n (s ++ (next_word s ∷ []))

-- A word with its bytes swapped.
abbrev pub swapped : ℕ → ℕ
swapped w = bit_or (bit_and (rol w 24) 0xff00ff00) (bit_and (rol w 8) 0x00ff00ff)

-- The words of a block from word `j` on.
unfoldable pub words_of : ℕ → ℕ → Bytes → List ℕ
words_of zero j block = []
words_of (suc n) j block = swapped (load_le block j) ∷ words_of n (j + 1) block

-- The compression function of FIPS 180: the schedule of all eighty rounds first, then the rounds.
unfoldable pub compressed : Regs → Bytes → Regs
compressed st block =
    let r = rounds_all 0 (extend 64 (words_of 16 0 block)) st in
    record {
      a = u32 (st.a + r.a);
      b = u32 (st.b + r.b);
      c = u32 (st.c + r.c);
      d = u32 (st.d + r.d);
      e = u32 (st.e + r.e);
    }
