-- ===== src/Common/Bits.antt =====
-- Bitwise operations on the native naturals: `a & b` and `a | b` digit by digit, nibble by nibble
-- and byte by byte, for constants and for bytes that do not overlap.
use Prim.Native.Nat.{digits, bit_and-bitwise, bit_or-bitwise}
use e2factory.Common.{
  ℕ, zero, suc, ◌+◌, ◌*◌, ◌/◌, ◌%◌, ◌≤◌, ◌<◌, min, max, bit_and, bit_or, ◌≡◌, refl, arith, ap, ◌∙◌,
  subst,
}

module _ (z : ℕ → ℕ) (f : ℕ → ℕ → ℕ) where
  -- With enough fuel the digits of `a` and `b` combine to `v`.
  abbrev Combine : ℕ → ℕ → ℕ → Type 0
  Combine a b v = (fuel : ℕ) → a ≤ fuel → digits z f fuel a b ≡ v

  module _ (step : (b : ℕ) → z b ≡ z (b / 2) * 2 + f 0 (b % 2)) where
    below : (a b v : ℕ) → Combine (a / 2) (b / 2) v → Combine a b (v * 2 + f (a % 2) (b % 2))
    below zero b v h zero p = step b ∙ ap (λ k. k * 2 + f 0 (b % 2)) (h 0 p)
    below (suc a) b v h zero p = absurd (omega arith)
    below zero b v h (suc fuel) p = step b ∙ ap (λ k. k * 2 + f 0 (b % 2)) (h 0 (omega arith))
    below (suc a) b v h (suc fuel) p =
        ap (λ k. k * 2 + f (suc a % 2) (b % 2)) (h fuel (omega arith))

    abbrev nibble : ℕ → ℕ → ℕ → ℕ
    nibble v a b =
        (((v * 2 + f (a / 2 / 2 / 2 % 2) (b / 2 / 2 / 2 % 2)) * 2
                + f (a / 2 / 2 % 2) (b / 2 / 2 % 2))
              * 2
            + f (a / 2 % 2) (b / 2 % 2))
          * 2
        + f (a % 2) (b % 2)

    below_four :
        (a b v : ℕ) → Combine (a / 2 / 2 / 2 / 2) (b / 2 / 2 / 2 / 2) v → Combine a b (nibble v a b)
    below_four a b v h = below a b _ (
        below (a / 2) (b / 2) _
          (below (a / 2 / 2) (b / 2 / 2) _ (below (a / 2 / 2 / 2) (b / 2 / 2 / 2) v h)))

    below_nibble :
        (x y v p q r : ℕ)
        → p < 16
        → q < 16
        → nibble v (x * 16 + p) (y * 16 + q) ≡ v * 16 + r
        → Combine x y v
        → Combine (x * 16 + p) (y * 16 + q) (v * 16 + r)
    below_nibble x y v p q r p_small q_small e h =
        let left : (x * 16 + p) / 2 / 2 / 2 / 2 ≡ x = omega arith in
        let right : (y * 16 + q) / 2 / 2 / 2 / 2 ≡ y = omega arith in
        subst (Combine (x * 16 + p) (y * 16 + q)) e
          (below_four (x * 16 + p) (y * 16 + q) v (rw (left, right) h))

  by_nibbles :
      (x y v p q r : ℕ)
      → Combine
          ((x * 16 + p / 16) * 16 + p % 16)
          ((y * 16 + q / 16) * 16 + q % 16)
          ((v * 16 + r / 16) * 16 + r % 16)
      → Combine (x * 256 + p) (y * 256 + q) (v * 256 + r)
  by_nibbles x y v p q r h =
      let first : (x * 16 + p / 16) * 16 + p % 16 ≡ x * 256 + p = omega arith in
      let second : (y * 16 + q / 16) * 16 + q % 16 ≡ y * 256 + q = omega arith in
      let third : (v * 16 + r / 16) * 16 + r % 16 ≡ v * 256 + r = omega arith in
      rw (first, second, third) at h

-- `a & b` is `v`.
abbrev pub And : ℕ → ℕ → ℕ → Type 0
And = Combine (λ b. 0) min

and_step : (b : ℕ) → 0 ≡ 0 * 2 + min 0 (b % 2)
and_step b = omega arith

pub And-none : And 0 0 0
And-none zero p = refl
And-none (suc fuel) p = refl

And-keeps_nibble : (x y v p : ℕ) → p < 16 → And x y v → And (x * 16 + p) (y * 16 + 15) (v * 16 + p)
And-keeps_nibble x y v p small h =
    below_nibble (λ b. 0) min and_step x y v p 15 p small (omega arith) (omega arith) h

And-drops_nibble : (x y v p : ℕ) → p < 16 → And x y v → And (x * 16 + p) (y * 16 + 0) (v * 16 + 0)
And-drops_nibble x y v p small h =
    below_nibble (λ b. 0) min and_step x y v p 0 0 small (omega arith) (omega arith) h

pub And-keeps :
    (x y v p : ℕ) → p < 256 → And x y v → And (x * 256 + p) (y * 256 + 255) (v * 256 + p)
And-keeps x y v p small h =
    by_nibbles (λ b. 0) min x y v p 255 p
      (And-keeps_nibble _ _ _ (p % 16) (omega arith)
        (And-keeps_nibble x y v (p / 16) (omega arith) h))

pub And-drops : (x y v p : ℕ) → p < 256 → And x y v → And (x * 256 + p) (y * 256 + 0) (v * 256 + 0)
And-drops x y v p small h =
    by_nibbles (λ b. 0) min x y v p 0 0
      (And-drops_nibble _ _ _ (p % 16) (omega arith)
        (And-drops_nibble x y v (p / 16) (omega arith) h))

pub bit_and-And : (a b v : ℕ) → And a b v → bit_and a b ≡ v
bit_and-And a b v h = bit_and-bitwise a b ∙ h a (omega arith)

-- `a | b` is `v`.
abbrev pub Or : ℕ → ℕ → ℕ → Type 0
Or = Combine (λ b. b) max

or_step : (b : ℕ) → b ≡ b / 2 * 2 + max 0 (b % 2)
or_step b = omega arith

pub Or-none : Or 0 0 0
Or-none zero p = refl
Or-none (suc fuel) p = refl

Or-left_nibble : (x y v p : ℕ) → p < 16 → Or x y v → Or (x * 16 + p) (y * 16 + 0) (v * 16 + p)
Or-left_nibble x y v p small h =
    below_nibble (λ b. b) max or_step x y v p 0 p small (omega arith) (omega arith) h

Or-right_nibble : (x y v p : ℕ) → p < 16 → Or x y v → Or (x * 16 + 0) (y * 16 + p) (v * 16 + p)
Or-right_nibble x y v p small h =
    below_nibble (λ b. b) max or_step x y v 0 p p (omega arith) small (omega arith) h

pub Or-left : (x y v p : ℕ) → p < 256 → Or x y v → Or (x * 256 + p) (y * 256 + 0) (v * 256 + p)
Or-left x y v p small h =
    by_nibbles (λ b. b) max x y v p 0 p
      (Or-left_nibble _ _ _ (p % 16) (omega arith) (Or-left_nibble x y v (p / 16) (omega arith) h))

pub Or-right : (x y v p : ℕ) → p < 256 → Or x y v → Or (x * 256 + 0) (y * 256 + p) (v * 256 + p)
Or-right x y v p small h =
    by_nibbles (λ b. b) max x y v 0 p p
      (Or-right_nibble _ _ _ (p % 16) (omega arith)
        (Or-right_nibble x y v (p / 16) (omega arith) h))

pub bit_or-Or : (a b v : ℕ) → Or a b v → bit_or a b ≡ v
bit_or-Or a b v h = bit_or-bitwise a b ∙ h a (omega arith)

And-above : (a : ℕ) → And a 0 0
And-above zero zero p = refl
And-above (suc a) zero p = absurd (omega arith)
And-above zero (suc fuel) p = refl
And-above (suc a) (suc fuel) p = omega (arith, And-above (suc a / 2) fuel (omega arith))

And-keeps_digit : (a b v : ℕ) → b % 2 ≡ 1 → And (a / 2) (b / 2) v → And a b (v * 2 + a % 2)
And-keeps_digit a b v e h = subst (And a b) (omega (arith, e)) (below (λ b. 0) min and_step a b v h)

And-drops_digit : (a b v : ℕ) → b % 2 ≡ 0 → And (a / 2) (b / 2) v → And a b (v * 2)
And-drops_digit a b v e h = subst (And a b) (omega (arith, e)) (below (λ b. 0) min and_step a b v h)

-- Four bits that a mask keeps, of any number.
And-keeps_four : (a y v : ℕ) → And (a / 16) y v → And a (y * 16 + 15) (v * 16 + a % 16)
And-keeps_four a y v h =
    let whole : a / 16 * 16 + a % 16 ≡ a = omega arith in
    rw whole at (And-keeps_nibble (a / 16) y v (a % 16) (omega arith) h)

And-63 : (a : ℕ) → And a 63 (a % 64)
And-63 a = subst (And a 63) (omega arith) (
    And-keeps_four a 3 _ (
      And-keeps_digit (a / 16) 3 _ refl
        (And-keeps_digit (a / 16 / 2) 1 _ refl (And-above (a / 16 / 2 / 2)))))

-- `a & 15`
pub bit_and_15 : (a : ℕ) → bit_and a 15 ≡ a % 16
bit_and_15 a = bit_and-And a 15 _ (And-keeps_four a 0 0 (And-above (a / 16))) ∙ omega arith

-- `a & 63`
pub bit_and_63 : (a : ℕ) → bit_and a 63 ≡ a % 64
bit_and_63 a = bit_and-And a 63 _ (And-63 a)

-- `a & 504`
pub bit_and_504 : (a : ℕ) → bit_and a 504 ≡ a / 8 % 64 * 8
bit_and_504 a =
    bit_and-And a 504 _ (
      And-drops_digit a 504 _ refl (
        And-drops_digit (a / 2) 252 _ refl
          (And-drops_digit (a / 2 / 2) 126 _ refl (And-63 (a / 2 / 2 / 2)))))
    ∙ omega arith
