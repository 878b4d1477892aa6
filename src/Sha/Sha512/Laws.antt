-- ===== src/Sha/Sha512/Laws.antt =====
-- generic/sha2.c: what SHA-512 puts into the streaming has the laws that the streaming needs; the
-- count of bits is that of two words.
use e2factory.Common.{
  ℕ, ◌+◌, ◌*◌, ◌/◌, ◌%◌, ◌^◌, ◌<◌, ◌≡◌, refl, ap₂, ◌∙◌, arith, Bytes, length, ltb, ◌++◌, Bool-cases,
  inl, inr,
}
use e2factory.Sha.ByteOrder.{be64}
use e2factory.Sha.ByteOrder.Wide.{le64-reverse64}
use e2factory.Sha.Sha2.Laws.{IsMachine}
use e2factory.Sha.Sha2.Rounds.{Regs}
use e2factory.Sha.Sha2.Rounds.Range.{length-transform}
use e2factory.Sha.Sha512.{machine512, words512, transform512, Count128, addinc128}

-- The transform leaves 128 bytes in the buffer.
pub length-transform512 : (st : Regs) (bytes : Bytes) → length (transform512 st bytes).1 ≡ 128
unfolding transform512
length-transform512 = length-transform words512 8 (λ w. refl)

-- Two words in range.
pub record IsCount128 (c : Count128) : Type 0 where
  pub low : c.low < 2 ^ 64
  pub high : c.high < 2 ^ 64

abbrev pub value128 : Count128 → ℕ
value128 c = c.low + 2 ^ 64 * c.high

pub addinc128-IsCount128 : (c : Count128) (n : ℕ) → IsCount128 c → IsCount128 (addinc128 c n)
unfolding addinc128
addinc128-IsCount128 c n valid = elim (Bool-cases (ltb ((c.low + n) % 2 ^ 64) n)) [
  | inl carries ↦ rw carries (record { low = omega arith; high = omega arith })
  | inr fits ↦ rw fits (record { low = omega arith; high = valid.high })
]

-- ADDINC128 adds to the number that two words below 2 ^ 64 stand for, modulo 2 ^ 128, a number
-- below 2 ^ 64.
pub value128-addinc128 :
    (c : Count128) (n : ℕ)
    → IsCount128 c
    → n < 2 ^ 64
    → value128 (addinc128 c n) ≡ (value128 c + n) % 2 ^ 128
unfolding addinc128
value128-addinc128 c n valid small = elim (Bool-cases (ltb ((c.low + n) % 2 ^ 64) n)) [
  | inl carries ↦ rw carries (ground (arith, valid.low, valid.high))
  | inr fits ↦ rw fits (ground (arith, valid.low, valid.high))
]

low-addinc128 : (c : Count128) (n : ℕ) → (addinc128 c n).low ≡ (c.low + n) % 2 ^ 64
unfolding addinc128
low-addinc128 c n = refl

pub waits-few :
    (c : Count128) (n : ℕ)
    → c.low / 8 % 128 + n < 128
    → (addinc128 c (8 * n)).low / 8 % 128 ≡ c.low / 8 % 128 + n
waits-few c n few = omega (arith, low-addinc128 c (8 * n))

pub waits-full :
    (c : Count128) (n : ℕ) → c.low / 8 % 128 + n ≡ 128 → (addinc128 c (8 * n)).low / 8 % 128 ≡ 0
waits-full c n full = omega (arith, low-addinc128 c (8 * n))

-- The bytes of a 128-bit number, the most significant first.
abbrev pub be128 : ℕ → Bytes
be128 n = be64 (n / 2 ^ 64) ++ be64 (n % 2 ^ 64)

abbrev pub machine512-IsMachine : IsMachine machine512
machine512-IsMachine = record {
  IsCount = IsCount128;
  value = value128;
  wrap = λ n. n % 2 ^ 128;
  value_wraps = λ c valid. omega (arith, valid.low, valid.high);
  wrap_add = λ a b. omega arith;
  add-IsCount = λ c n valid. addinc128-IsCount128 c (8 * n) valid;
  value-add = λ c n valid few. value128-addinc128 c (8 * n) valid (omega arith);
  waits-lt = λ c. omega arith;
  waits-add = λ c n valid few. waits-few c n few;
  waits-full = λ c n valid full. waits-full c n full;
  waits_wrap = λ c n valid same. omega (arith, valid.low, valid.high);
  count_text = be128;
  count_bytes-text = λ c valid.
      ap₂ (λ x y. x ++ y) (le64-reverse64 c.high valid.high) (le64-reverse64 c.low valid.low)
      ∙ ap₂ (λ x y. be64 x ++ be64 y) (omega (arith, valid.low)) (omega (arith, valid.low));
  length_transform = length-transform512;
  length_count = λ c. refl;
  short_pos = omega arith;
  short-lt = omega arith;
  short-le-cleared = omega arith;
  cleared-le = omega arith;
}
