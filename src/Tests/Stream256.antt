-- ===== src/Tests/Stream256.antt =====
-- The theorems on the SHA-256 part of generic/sha2.c, on a context in which three bytes wait.
use mathlib.Core.List.{flatten}
use e2factory.Common.{ℕ, ◌≡◌, refl, some, Bytes, [], ◌∷◌, codes, replicate, arith}
use e2factory.Sha.Sha1.Final.{hex_of}
use e2factory.Sha.Sha256.{Context256, initial}
use e2factory.Sha.Sha256.Stream.{data256}
use e2factory.Sha.Sha256.Stream.Refinement.{IsContext256}
use e2factory.Sha.Sha256.Stream.Digest.{sha256, data256-sha256}
use e2factory.Sha.Lsha.{done}
use e2factory.Sha.Lsha.Long.{lsha256_init}
use e2factory.Sha.Lsha.Long.Runs.{digest256_from, digest-sha256}

abbrev waiting : Context256
waiting = record { state = initial; bitcount = 24; buffer = replicate 64 0 }

waiting-IsContext : IsContext256 waiting
waiting-IsContext = record { counted = omega arith; sized = refl }

data256-sha256_example : data256 waiting (codes "abc") ≡ some (hex_of (sha256 (codes "abc")))
data256-sha256_example = data256-sha256 waiting (codes "abc")

abbrev no_message : ℕ → Bytes
no_message i = []

digest-sha256_example :
    digest256_from no_message (lsha256_init waiting) (codes "ab" ∷ codes "c" ∷ [])
    ≡ done (hex_of (sha256 (codes "abc")))
unfolding flatten
digest-sha256_example = digest-sha256 no_message waiting (codes "ab" ∷ codes "c" ∷ [])
