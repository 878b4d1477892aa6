-- ===== src/Sha/ByteOrder/Laws.antt =====
-- generic/sha2.c: REVERSE32 puts the bytes of a word in the opposite order.
use e2factory.Common.{
  ℕ, ◌+◌, ◌*◌, ◌/◌, ◌%◌, ◌^◌, ◌<◌, ◌≡◌, refl, ap, ap₂, ◌∙◌, bit_and, bit_or, arith, [], ◌∷◌,
}
use e2factory.Common.Bits.{
  And, And-none, And-keeps, And-drops, bit_and-And, Or, Or-none, Or-left, Or-right, bit_or-Or,
}
use e2factory.Sha.Words.{◌<<<◌, ◌>>>◌, be32}
use e2factory.Sha.ByteOrder.{reverse32, le32}

-- A number by its bytes, the most significant first.
abbrev pub word4 : ℕ → ℕ → ℕ → ℕ → ℕ
word4 a b c d = (((0 * 256 + a) * 256 + b) * 256 + c) * 256 + d

abbrev pub after4 : ℕ → ℕ → ℕ → ℕ → ℕ → ℕ
after4 x a b c d = (((x * 256 + a) * 256 + b) * 256 + c) * 256 + d

pub And-odd :
    (x y v a b c d : ℕ)
    → a < 256
    → b < 256
    → c < 256
    → d < 256
    → And x y v
    → And (after4 x a b c d) (after4 y 255 0 255 0) (after4 v a 0 c 0)
And-odd x y v a b c d p q r s h =
    And-drops _ _ _ d s (And-keeps _ _ _ c r (And-drops _ _ _ b q (And-keeps x y v a p h)))

pub And-even :
    (x y v a b c d : ℕ)
    → a < 256
    → b < 256
    → c < 256
    → d < 256
    → And x y v
    → And (after4 x a b c d) (after4 y 0 255 0 255) (after4 v 0 b 0 d)
And-even x y v a b c d p q r s h =
    And-keeps _ _ _ d s (And-drops _ _ _ c r (And-keeps _ _ _ b q (And-drops x y v a p h)))

pub Or-turns :
    (x y v a b c d : ℕ)
    → a < 256
    → b < 256
    → c < 256
    → d < 256
    → Or x y v
    → Or (after4 x 0 a 0 c) (after4 y b 0 d 0) (after4 v b a d c)
Or-turns x y v a b c d p q r s h =
    Or-left _ _ _ c r (Or-right _ _ _ d s (Or-left _ _ _ a p (Or-right x y v b q h)))

module _ (a b c d : ℕ) (p : a < 256) (q : b < 256) (r : c < 256) (s : d < 256) where
  halves : bit_or (word4 a b c d >>> 16) (word4 a b c d <<< 16) ≡ word4 c d a b
  halves =
      ap₂ bit_or (omega arith) (omega arith)
      ∙ bit_or-Or (word4 0 0 a b) (word4 c d 0 0) _
          (Or-left _ _ _ b q (Or-left _ _ _ a p (Or-right _ _ _ d s (Or-right 0 0 0 c r Or-none))))

  bytes :
      bit_or (bit_and (word4 a b c d) 0xff00ff00 >>> 8) (bit_and (word4 a b c d) 0x00ff00ff <<< 8)
      ≡ word4 b a d c
  bytes =
      ap₂ (λ u v. bit_or (u >>> 8) (v <<< 8))
        (bit_and-And _ _ _ (And-odd 0 0 0 a b c d p q r s And-none))
        (bit_and-And _ _ _ (And-even 0 0 0 a b c d p q r s And-none))
      ∙ ap₂ bit_or (omega arith) (omega arith)
      ∙ bit_or-Or (word4 0 a 0 c) (word4 b 0 d 0) _ (Or-turns 0 0 0 a b c d p q r s Or-none)

-- The bytes of a 32-bit word in the opposite order.
pub reverse32-word4 :
    (a b c d : ℕ)
    → a < 256
    → b < 256
    → c < 256
    → d < 256
    → reverse32 (word4 a b c d) ≡ word4 d c b a
unfolding reverse32
reverse32-word4 a b c d p q r s =
    ap (λ tmp. bit_or (bit_and tmp 0xff00ff00 >>> 8) (bit_and tmp 0x00ff00ff <<< 8))
      (halves a b c d p q r s)
    ∙ bytes c d a b r s p q

pub le32-word4 :
    (a b c d : ℕ)
    → a < 256
    → b < 256
    → c < 256
    → d < 256
    → le32 (word4 d c b a) ≡ a ∷ b ∷ c ∷ d ∷ []
le32-word4 a b c d p q r s =
    let first : word4 d c b a % 256 ≡ a = omega arith in
    let second : word4 d c b a / 2 ^ 8 % 256 ≡ b = omega arith in
    let third : word4 d c b a / 2 ^ 16 % 256 ≡ c = omega arith in
    let fourth : word4 d c b a / 2 ^ 24 % 256 ≡ d = omega arith in
    rw (first, second, third, fourth) refl

-- A 32-bit word in memory after REVERSE32 is in the order of the network.
pub le32-reverse32 : (w : ℕ) → w < 2 ^ 32 → le32 (reverse32 w) ≡ be32 w
le32-reverse32 w small =
    ap le32 (
      ap reverse32 whole
      ∙ reverse32-word4 (w / 2 ^ 24 % 256) (w / 2 ^ 16 % 256) (w / 2 ^ 8 % 256) (w % 256)
          (omega arith) (omega arith) (omega arith) (omega arith))
    ∙ le32-word4 (w / 2 ^ 24 % 256) (w / 2 ^ 16 % 256) (w / 2 ^ 8 % 256) (w % 256) (omega arith)
        (omega arith) (omega arith) (omega arith)
  where
    whole : w ≡ word4 (w / 2 ^ 24 % 256) (w / 2 ^ 16 % 256) (w / 2 ^ 8 % 256) (w % 256)
    whole = omega arith
