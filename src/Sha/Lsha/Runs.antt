-- ===== src/Sha/Lsha/Runs.antt =====
-- generic/lsha.c: a digest computed in pieces, as local/hash.lua does with the blocks of a file,
-- and the sizes that the guard of `lsha1_update` lets through.
use mathlib.Core.List.{flatten}
use e2factory.Common.{
  ℕ, ◌+◌, ◌-◌, ◌/◌, ◌^◌, ◌≤◌, ◌<◌, ◌≡◌, refl, ap, ◌∙◌, sym, none, some, List, [], ◌∷◌, ◌++◌, Bytes,
  length, le→not-ltb, arith, drop, append_assoc, append-nil,
}
use e2factory.Common.Bits.{bit_and_63}
use e2factory.Sha.Words.{memcpy, u32}
use e2factory.Sha.Sha1.{Context, Regs, init}
use e2factory.Sha.Sha1.Update.{update, keep_rest}
use e2factory.Sha.Sha1.Update.Refinement.{IsContext, used}
use e2factory.Sha.Sha1.Final.{hex_of, wiped}
use e2factory.Sha.Sha1.Final.Digest.{Holds, init-Holds, update-Holds, sha1, final-sha1}
use e2factory.Sha.Lsha.{Reply, done, error, fault, uint_max, lsha1_init, lsha1_update, lsha1_final}

memcpy-overruns :
    (buffer source : Bytes) (j n : ℕ) → length buffer < j + n → memcpy buffer j source n ≡ none
unfolding memcpy
memcpy-overruns buffer source j n over = ground (arith, memcpy)

-- Every piece is a little below 4 GiB at most.
abbrev pub AllFit : List Bytes → Type 0
AllFit [] = Unit
AllFit (piece ∷ pieces) = (length piece + 128 < 2 ^ 32) × AllFit pieces

keep_rest-overruns :
    (c : Context) (buffer input : Bytes) (j i len : ℕ) (st : Regs)
    → length buffer < j + (len - i)
    → keep_rest c buffer j input i len st ≡ none
unfolding keep_rest
keep_rest-overruns c buffer input j i len st over =
    rw (keep_rest, memcpy-overruns buffer (drop i input) j (len - i) over) refl

update-overruns :
    (c : Context) (piece : Bytes)
    → IsContext c
    → length piece ≤ uint_max
    → 2 ^ 32 ≤ used c + length piece
    → update c piece (length piece) ≡ none
unfolding update
update-overruns c piece valid guarded wraps =
    rw
      (
        bit_and_63 (c.count0 / 8),
        le→not-ltb 63 (u32 (used c + length piece)) (omega arith),
        keep_rest-overruns _ c.buffer piece (used c) 0 (length piece) c.state
            (omega (arith, valid.sized)),
      )
      refl

module _ (argerror : ℕ → Bytes) where
  -- The pieces in turn, then the digest.
  pub digest_from : Context → List Bytes → Reply Bytes
  digest_from c [] = elim (lsha1_final argerror (some c)) [
    | done (hex, rest) ↦ done hex
    | error msg ↦ error msg
    | fault ↦ fault
  ]
  digest_from c (piece ∷ pieces) = elim (lsha1_update argerror (some c) (some piece)) [
    | done next ↦ digest_from next pieces
    | error msg ↦ error msg
    | fault ↦ fault
  ]

  pub lsha1_update-fits :
      (c next : Context) (piece : Bytes)
      → length piece + 128 < 2 ^ 32
      → update c piece (length piece) ≡ some next
      → lsha1_update argerror (some c) (some piece) ≡ done next
  unfolding lsha1_update
  lsha1_update-fits c next piece small returns =
      rw (le→not-ltb uint_max (length piece) (omega arith), returns) refl

  pub lsha1_final-sha1 :
      (c : Context) (m : Bytes)
      → Holds c m
      → lsha1_final argerror (some c) ≡ done (hex_of (sha1 m), wiped)
  unfolding lsha1_final
  lsha1_final-sha1 c m h = rw (final-sha1 c m h) refl

  digest_from-sha1 :
      (pieces : List Bytes) (c : Context) (m : Bytes)
      → Holds c m
      → AllFit pieces
      → digest_from c pieces ≡ done (hex_of (sha1 (m ++ flatten pieces)))
  unfolding digest_from flatten
  digest_from-sha1 [] c m h fit =
      rw (lsha1_final-sha1 c m h, digest_from)
        (ap (λ w. done (hex_of (sha1 w))) (sym (append-nil m)))
  digest_from-sha1 (piece ∷ pieces) c m h (small, fit) =
      let (next, returns, holds) = update-Holds c m piece h small in
      rw (lsha1_update-fits c next piece small returns, digest_from)
        (digest_from-sha1 pieces next (m ++ piece) holds fit ∙ rw append_assoc)

  -- Whatever the memory held in its buffer of 64 bytes, and however a message is cut into pieces,
  -- the hexadecimal digest is that of SHA-1 of the whole message over the functions on words of the
  -- source, if no piece comes within 128 bytes of 4 GiB.
  pub digest-sha1 :
      (memory : Context) (pieces : List Bytes)
      → length memory.buffer ≡ 64
      → AllFit pieces
      → digest_from (lsha1_init memory) pieces ≡ done (hex_of (sha1 (flatten pieces)))
  unfolding lsha1_init
  digest-sha1 memory pieces sized fit =
      digest_from-sha1 pieces (init memory) [] (init-Holds memory sized) fit

  -- In a context with counters below 2 ^ 32 and a buffer of 64 bytes, a piece of at most UINT_MAX
  -- bytes passes the guard, but if its length and the bytes that wait reach 2 ^ 32 together, their
  -- sum wraps around and the piece is copied past the end of the buffer.
  pub lsha1_update-overrun :
      (c : Context) (piece : Bytes)
      → IsContext c
      → length piece ≤ uint_max
      → 2 ^ 32 ≤ used c + length piece
      → lsha1_update argerror (some c) (some piece) ≡ fault
  unfolding lsha1_update
  lsha1_update-overrun c piece valid guarded wraps =
      rw
        (
          le→not-ltb uint_max (length piece) (omega arith),
          update-overruns c piece valid guarded wraps,
        )
        refl
