-- ===== src/Sha/Sha256/Blocks.antt =====
-- generic/sha2.c: the words that SHA256_Transform reads from a block are those that the block
-- holds, the most significant byte first.
use e2factory.Common.{
  ℕ, zero, suc, ◌+◌, ◌*◌, ◌/◌, ◌%◌, ◌^◌, ◌<◌, ◌≡◌, refl, ap, ap₂, ◌∙◌, List, [], ◌∷◌, ◌++◌, Bytes,
  arith, length, get_or,
}
use e2factory.Sha.Words.{load_le, be32}
use e2factory.Sha.ByteOrder.{reverse32}
use e2factory.Sha.ByteOrder.Laws.{reverse32-word4}
use e2factory.Sha.Sha2.Rounds.{emit}
use e2factory.Sha.Sha2.Rounds.Range.{Below}
use e2factory.Sha.Sha2.Rounds.Schedule.{words_of}
use e2factory.Sha.Sha256.{words256}

load_le-suc :
    (a b c d j : ℕ) (rest : Bytes) → load_le (a ∷ b ∷ c ∷ d ∷ rest) (suc j) ≡ load_le rest j
load_le-suc a b c d j rest =
    let first : 4 * suc j ≡ suc (suc (suc (suc (4 * j)))) = omega arith in
    let second : 4 * suc j + 1 ≡ suc (suc (suc (suc (4 * j + 1)))) = omega arith in
    let third : 4 * suc j + 2 ≡ suc (suc (suc (suc (4 * j + 2)))) = omega arith in
    let fourth : 4 * suc j + 3 ≡ suc (suc (suc (suc (4 * j + 3)))) = omega arith in
    let at = λ (i : ℕ). get_or (a ∷ b ∷ c ∷ d ∷ rest) i 0 in
    ap₂ (λ x y. x + y)
      (ap₂ (λ x y. x + y) (ap₂ (λ x y. x + y) (ap at first) (ap (λ i. 2 ^ 8 * at i) second))
        (ap (λ i. 2 ^ 16 * at i) third))
      (ap (λ i. 2 ^ 24 * at i) fourth)

load_le-be32 : (w : ℕ) (rest : Bytes) → w < 2 ^ 32 → reverse32 (load_le (be32 w ++ rest) 0) ≡ w
load_le-be32 w rest small =
    ap reverse32 (omega arith)
    ∙ reverse32-word4 (w % 256) (w / 2 ^ 8 % 256) (w / 2 ^ 16 % 256) (w / 2 ^ 24 % 256)
        (omega arith) (omega arith) (omega arith) (omega arith)
    ∙ omega arith

words_of-skip :
    (n j a b c d : ℕ) (rest : Bytes)
    → words_of words256 n (suc j) (a ∷ b ∷ c ∷ d ∷ rest) ≡ words_of words256 n j rest
unfolding words_of
words_of-skip zero j a b c d rest = refl
words_of-skip (suc n) j a b c d rest =
    let next : suc j + 1 ≡ suc (j + 1) = omega arith in
    ap₂ (λ (x : ℕ) (xs : List ℕ). x ∷ xs) (ap reverse32 (load_le-suc a b c d j rest))
      (ap (λ k. words_of words256 n k (a ∷ b ∷ c ∷ d ∷ rest)) next
        ∙ words_of-skip n (j + 1) a b c d rest)

-- The words of a block are what SHA256_Transform reads, if they are below 2 ^ 32.
pub words_of-emit :
    (ws : List ℕ) → Below (2 ^ 32) ws → words_of words256 (length ws) 0 (emit be32 ws) ≡ ws
unfolding words_of
words_of-emit [] small = refl
words_of-emit (w ∷ ws) (p, small) =
    ap₂ (λ (x : ℕ) (xs : List ℕ). x ∷ xs) (load_le-be32 w (emit be32 ws) p)
      (words_of-skip (length ws) 0 _ _ _ _ (emit be32 ws) ∙ words_of-emit ws small)
