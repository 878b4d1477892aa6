-- ===== src/Sha/Sha256/Stream/Bounds.antt =====
-- generic/sha2.c: SHA256_Final and SHA256_End stay inside the buffer.
use e2factory.Common.{◌*◌, ◌≡◌, refl, some, [], ◌∷◌, Bytes, arith, length}
use e2factory.Sha.ByteOrder.{reverse32, le32}
use e2factory.Sha.Sha1.Final.{hex_of}
use e2factory.Sha.Sha2.Rounds.{emit, words}
use e2factory.Sha.Sha2.Last.{last-absorbs}
use e2factory.Sha.Sha256.{Context256, machine256}
use e2factory.Sha.Sha256.Laws.{machine256-IsMachine}
use e2factory.Sha.Sha256.Stream.{final256, end256, wiped256}
use e2factory.Sha.Sha256.Stream.Refinement.{IsContext256}

pub length-hex_of : (bytes : Bytes) → length (hex_of bytes) ≡ 2 * length bytes
unfolding hex_of
length-hex_of [] = refl
length-hex_of (x ∷ xs) = omega (arith, length-hex_of xs)

-- For every context with a count below 2 ^ 64 and a buffer of 64 bytes, SHA256_End writes
-- nothing outside the buffer, gives 64 hexadecimal digits and wipes the context.
pub end-total :
    (c : Context256)
    → IsContext256 c
    → (text : Bytes) × (end256 c ≡ some (text, wiped256)) × (length text ≡ 64)
unfolding end256 final256
end-total c valid =
    let (done, returns, state) = last-absorbs machine256 machine256-IsMachine c valid in
    let digest = emit (λ w. le32 (reverse32 w)) (words done.state) in
    (hex_of digest, rw (returns, end256) refl, length-hex_of digest)
