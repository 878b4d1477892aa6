-- ===== src/Common/Replicate.antt =====
-- Zeros in a row, and prefixes of prefixes.
use e2factory.Common.{
  ℕ, zero, suc, ◌+◌, ◌≤◌, ◌≡◌, refl, ap, [], ◌∷◌, ◌++◌, Bytes, take, replicate, arith,
}

pub replicate_add : (m n : ℕ) → replicate {A = ℕ} (m + n) 0 ≡ replicate m 0 ++ replicate n 0
replicate_add zero n = ap (λ k. replicate k 0) (omega arith)
replicate_add (suc m) n =
    let e : suc m + n ≡ suc (m + n) = omega arith in rw e (ap (λ w. 0 ∷ w) (replicate_add m n))

pub take-take : (k n : ℕ) (xs : Bytes) → k ≤ n → take k (take n xs) ≡ take k xs
take-take zero n xs h = refl
take-take (suc k) zero xs h = absurd (omega arith)
take-take (suc k) (suc n) [] h = refl
take-take (suc k) (suc n) (x ∷ xs) h = ap (λ w. x ∷ w) (take-take k n xs (omega arith))

pub take-replicate : (k n : ℕ) → k ≤ n → take k (replicate {A = ℕ} n 0) ≡ replicate k 0
take-replicate zero n h = refl
take-replicate (suc k) zero h = absurd (omega arith)
take-replicate (suc k) (suc n) h = ap (λ w. 0 ∷ w) (take-replicate k n (omega arith))

pub take-replicate_all : (n : ℕ) → take n (replicate {A = ℕ} n 0) ≡ replicate n 0
take-replicate_all n = take-replicate n n (omega arith)
