-- ===== src/Sha/Lsha/Long/Runs.antt =====
-- generic/lsha.c: a SHA-256 digest computed in pieces.
use mathlib.Core.List.{flatten}
use e2factory.Common.{
  ℕ, ◌≡◌, refl, ap, ◌∙◌, sym, some, List, [], ◌∷◌, ◌++◌, Bytes, append_assoc, append-nil,
}
use e2factory.Sha.Sha1.Final.{hex_of}
use e2factory.Sha.Sha2.Digest.{update-Holds}
use e2factory.Sha.Sha256.{Context256, machine256, initial, init}
use e2factory.Sha.Sha256.Laws.{machine256-IsMachine}
use e2factory.Sha.Sha256.Stream.{update256, wiped256}
use e2factory.Sha.Sha256.Stream.Digest.{Holds256, init-Holds256, sha256, end256-sha256}
use e2factory.Sha.Lsha.{Reply, done, error, fault}
use e2factory.Sha.Lsha.Long.{lsha256_init, lsha256_update, lsha256_final}

module _ (argerror : ℕ → Bytes) where
  -- The pieces in turn, then the digest.
  pub digest256_from : Context256 → List Bytes → Reply Bytes
  digest256_from c [] = elim (lsha256_final argerror (some c)) [
    | done (hex, rest) ↦ done hex
    | error msg ↦ error msg
    | fault ↦ fault
  ]
  digest256_from c (piece ∷ pieces) = elim (lsha256_update argerror (some c) (some piece)) [
    | done next ↦ digest256_from next pieces
    | error msg ↦ error msg
    | fault ↦ fault
  ]

  lsha256_final-sha256 :
      (c : Context256) (m : Bytes)
      → Holds256 c m
      → lsha256_final argerror (some c) ≡ done (hex_of (sha256 m), wiped256)
  unfolding lsha256_final
  lsha256_final-sha256 c m h = rw (end256-sha256 c m h) refl

  digest256_from-sha256 :
      (pieces : List Bytes) (c : Context256) (m : Bytes)
      → Holds256 c m
      → digest256_from c pieces ≡ done (hex_of (sha256 (m ++ flatten pieces)))
  unfolding digest256_from flatten lsha256_update update256
  digest256_from-sha256 [] c m h =
      rw (lsha256_final-sha256 c m h, digest256_from)
        (ap (λ w. done (hex_of (sha256 w))) (sym (append-nil m)))
  digest256_from-sha256 (piece ∷ pieces) c m h =
      let (next, returns, holds) =
        update-Holds machine256 machine256-IsMachine initial c m piece h in
      rw (returns, digest256_from)
        (digest256_from-sha256 pieces next (m ++ piece) holds ∙ rw append_assoc)

  -- Whatever the memory held, and however a message is cut into pieces of whatever sizes, the
  -- hexadecimal digest is that of SHA-256 of the whole message over the rounds of the source:
  -- the guard and the overrun of the SHA-1 functions have no counterpart.
  pub digest-sha256 :
      (memory : Context256) (pieces : List Bytes)
      → digest256_from (lsha256_init memory) pieces ≡ done (hex_of (sha256 (flatten pieces)))
  unfolding lsha256_init
  digest-sha256 memory pieces = digest256_from-sha256 pieces (init memory) [] (init-Holds256 memory)
