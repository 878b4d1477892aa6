-- ===== src/Sha/ByteOrder/Wide.antt =====
-- generic/sha2.c: REVERSE64 puts the bytes of a word in the opposite order.
use e2factory.Common.{ℕ, ◌*◌, ◌/◌, ◌%◌, ◌^◌, ◌<◌, ◌≡◌, ap, ap₂, ◌∙◌, bit_and, bit_or, arith, ◌++◌}
use e2factory.Common.Bits.{
  And, And-none, And-keeps, And-drops, bit_and-And, Or, Or-none, Or-left, Or-right, bit_or-Or,
}
use e2factory.Sha.ByteOrder.{reverse64, le32, le64, be64}
use e2factory.Sha.ByteOrder.Laws.{word4, after4, And-odd, And-even, Or-turns, le32-word4}

And-first :
    (x y v a b c d : ℕ)
    → a < 256
    → b < 256
    → c < 256
    → d < 256
    → And x y v
    → And (after4 x a b c d) (after4 y 255 255 0 0) (after4 v a b 0 0)
And-first x y v a b c d p q r s h =
    And-drops _ _ _ d s (And-drops _ _ _ c r (And-keeps _ _ _ b q (And-keeps x y v a p h)))

And-second :
    (x y v a b c d : ℕ)
    → a < 256
    → b < 256
    → c < 256
    → d < 256
    → And x y v
    → And (after4 x a b c d) (after4 y 0 0 255 255) (after4 v 0 0 c d)
And-second x y v a b c d p q r s h =
    And-keeps _ _ _ d s (And-keeps _ _ _ c r (And-drops _ _ _ b q (And-drops x y v a p h)))

Or-pairs :
    (x y v a b c d : ℕ)
    → a < 256
    → b < 256
    → c < 256
    → d < 256
    → Or x y v
    → Or (after4 x 0 0 a b) (after4 y c d 0 0) (after4 v c d a b)
Or-pairs x y v a b c d p q r s h =
    Or-left _ _ _ b q (Or-left _ _ _ a p (Or-right _ _ _ d s (Or-right x y v c r h)))

-- Three steps of REVERSE64, on words by their bytes.
module _ (a b c d e f g h : ℕ) (p : a < 256) (q : b < 256) (r : c < 256) (s : d < 256) (t : e < 256)
    (u : f < 256) (v : g < 256) (w : h < 256) where
  abbrev pub word8 : ℕ
  word8 = after4 (word4 a b c d) e f g h

  Or-left4 : (x y z : ℕ) → Or x y z → Or (after4 x a b c d) (after4 y 0 0 0 0) (after4 z a b c d)
  Or-left4 x y z k = Or-left _ _ _ d s (Or-left _ _ _ c r (Or-left _ _ _ b q (Or-left x y z a p k)))

  Or-right4 : (x y z : ℕ) → Or x y z → Or (after4 x 0 0 0 0) (after4 y e f g h) (after4 z e f g h)
  Or-right4 x y z k =
      Or-right _ _ _ h w (Or-right _ _ _ g v (Or-right _ _ _ f u (Or-right x y z e t k)))

  swap_words : bit_or (word8 / 2 ^ 32) (word8 * 2 ^ 32 % 2 ^ 64) ≡ after4 (word4 e f g h) a b c d
  swap_words =
      ap₂ bit_or (omega arith) (omega arith)
      ∙ bit_or-Or (after4 0 a b c d) (after4 (word4 e f g h) 0 0 0 0) _
          (Or-left4 0 _ _ (Or-right4 0 0 0 Or-none))

  swap_bytes :
      bit_or
        (bit_and word8 0xff00ff00ff00ff00 / 2 ^ 8)
        (bit_and word8 0x00ff00ff00ff00ff * 2 ^ 8 % 2 ^ 64)
      ≡ after4 (word4 b a d c) f e h g
  swap_bytes =
      ap₂ (λ x y. bit_or (x / 2 ^ 8) (y * 2 ^ 8 % 2 ^ 64))
        (bit_and-And _ _ _ (And-odd _ _ _ e f g h t u v w (And-odd 0 0 0 a b c d p q r s And-none)))
        (bit_and-And _ _ _
          (And-even _ _ _ e f g h t u v w (And-even 0 0 0 a b c d p q r s And-none)))
      ∙ ap₂ bit_or (omega arith) (omega arith)
      ∙ bit_or-Or (after4 (word4 0 a 0 c) 0 e 0 g) (after4 (word4 b 0 d 0) f 0 h 0) _
          (Or-turns _ _ _ e f g h t u v w (Or-turns 0 0 0 a b c d p q r s Or-none))

  swap_pairs :
      bit_or
        (bit_and word8 0xffff0000ffff0000 / 2 ^ 16)
        (bit_and word8 0x0000ffff0000ffff * 2 ^ 16 % 2 ^ 64)
      ≡ after4 (word4 c d a b) g h e f
  swap_pairs =
      ap₂ (λ x y. bit_or (x / 2 ^ 16) (y * 2 ^ 16 % 2 ^ 64))
        (bit_and-And _ _ _
          (And-first _ _ _ e f g h t u v w (And-first 0 0 0 a b c d p q r s And-none)))
        (bit_and-And _ _ _
          (And-second _ _ _ e f g h t u v w (And-second 0 0 0 a b c d p q r s And-none)))
      ∙ ap₂ bit_or (omega arith) (omega arith)
      ∙ bit_or-Or (after4 (word4 0 0 a b) 0 0 e f) (after4 (word4 c d 0 0) g h 0 0) _
          (Or-pairs _ _ _ e f g h t u v w (Or-pairs 0 0 0 a b c d p q r s Or-none))

-- The bytes of a 64-bit word in the opposite order.
pub reverse64-word8 :
    (a b c d e f g h : ℕ)
    → a < 256
    → b < 256
    → c < 256
    → d < 256
    → e < 256
    → f < 256
    → g < 256
    → h < 256
    → reverse64 (after4 (word4 a b c d) e f g h) ≡ after4 (word4 h g f e) d c b a
unfolding reverse64
reverse64-word8 a b c d e f g h p q r s t u v w =
    ap
      (λ tmp.
        let y =
          bit_or (bit_and tmp 0xff00ff00ff00ff00 / 2 ^ 8)
            (bit_and tmp 0x00ff00ff00ff00ff * 2 ^ 8 % 2 ^ 64) in
        bit_or (bit_and y 0xffff0000ffff0000 / 2 ^ 16)
          (bit_and y 0x0000ffff0000ffff * 2 ^ 16 % 2 ^ 64))
      (swap_words a b c d e f g h p q r s t u v w)
    ∙ ap
        (λ y.
          bit_or (bit_and y 0xffff0000ffff0000 / 2 ^ 16)
            (bit_and y 0x0000ffff0000ffff * 2 ^ 16 % 2 ^ 64))
        (swap_bytes e f g h a b c d t u v w p q r s)
    ∙ swap_pairs f e h g b a d c u t w v q p s r

-- A 64-bit word in memory after REVERSE64 is in the order of the network.
pub le64-reverse64 : (w : ℕ) → w < 2 ^ 64 → le64 (reverse64 w) ≡ be64 w
le64-reverse64 w small =
    ap le64 (
      ap reverse64 whole
      ∙ reverse64-word8 (h / 2 ^ 24 % 256) (h / 2 ^ 16 % 256) (h / 2 ^ 8 % 256) (h % 256)
          (l / 2 ^ 24 % 256) (l / 2 ^ 16 % 256) (l / 2 ^ 8 % 256) (l % 256) (omega arith)
          (omega arith) (omega arith) (omega arith) (omega arith) (omega arith) (omega arith)
          (omega arith))
    ∙ ap₂ (λ x y. le32 x ++ le32 y) (omega arith) (omega arith)
    ∙ ap₂ (λ x y. x ++ y)
        (le32-word4 (h / 2 ^ 24 % 256) (h / 2 ^ 16 % 256) (h / 2 ^ 8 % 256) (h % 256) (omega arith)
          (omega arith) (omega arith) (omega arith))
        (le32-word4 (l / 2 ^ 24 % 256) (l / 2 ^ 16 % 256) (l / 2 ^ 8 % 256) (l % 256) (omega arith)
          (omega arith) (omega arith) (omega arith))
  where
    h : ℕ
    h = w / 2 ^ 32

    l : ℕ
    l = w % 2 ^ 32

    whole :
        w
        ≡ after4
            (word4 (h / 2 ^ 24 % 256) (h / 2 ^ 16 % 256) (h / 2 ^ 8 % 256) (h % 256))
            (l / 2 ^ 24 % 256)
            (l / 2 ^ 16 % 256)
            (l / 2 ^ 8 % 256)
            (l % 256)
    whole = omega arith
