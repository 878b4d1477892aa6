-- ===== src/Tests/Rounds.antt =====
-- The transforms of generic/sha2.c on a block.
use e2factory.Common.{ℕ, ◌-◌, ◌^◌, ◌≡◌, List, ◌∷◌, Bytes, replicate}
use e2factory.Sha.Sha2.Rounds.{transform}
use e2factory.Sha.Sha2.Rounds.Schedule.{compressed, transform-compressed}
use e2factory.Sha.Sha256.{initial, words256, transform256}
use e2factory.Sha.Sha512.{Count128}
use e2factory.Sha.Sha2.Unrolled.{unrolled256}
use e2factory.Sha.Sha2.Unrolled.Equivalence.{unrolled256-transform256}

abbrev block : Bytes
block = replicate 128 7

unrolled256-transform256_example : unrolled256 initial block ≡ transform256 initial block
unrolled256-transform256_example = unrolled256-transform256 initial block

transform-compressed_example :
    (transform words256 initial block).0 ≡ compressed words256 initial block
transform-compressed_example = transform-compressed words256 initial block

abbrev sixteen : List ℕ
sixteen = 1 ∷ 2 ∷ 3 ∷ 0xffffffff ∷ replicate 12 0x01020304

abbrev nearly_full : Count128
nearly_full = record { low = 2 ^ 64 - 8; high = 5 }
