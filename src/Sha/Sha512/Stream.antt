-- ===== src/Sha/Sha512/Stream.antt =====
-- generic/sha2.c: SHA512_Update, SHA512_Final, SHA512_End and SHA512_Data, and those of SHA-384,
-- with a buffer for the digest. `none` is a write past the end of the buffer, or a loop that does
-- not end.
pub mod Digest
use e2factory.Common.{ℕ, Option, none, some, List, [], ◌∷◌, Bytes, length, replicate}
use e2factory.Sha.ByteOrder.{reverse64, le64}
use e2factory.Sha.Sha1.Final.{hex_of}
use e2factory.Sha.Sha2.{update, last}
use e2factory.Sha.Sha2.Rounds.{Regs, emit, words}
use e2factory.Sha.Sha512.{Context512, machine512, init512, init384}

-- What is left of a context.
abbrev pub wiped512 : Context512
wiped512 = record {
  state = record { a = 0; b = 0; c = 0; d = 0; e = 0; f = 0; g = 0; h = 0 };
  bitcount = record { low = 0; high = 0 };
  buffer = replicate 128 0;
}

-- The words of the state that SHA-384 gives.
abbrev pub words384 : Regs → List ℕ
words384 r = r.a ∷ r.b ∷ r.c ∷ r.d ∷ r.e ∷ r.f ∷ []

-- SHA512_Update
unfoldable pub update512 : Context512 → Bytes → ℕ → Option Context512
unfolding update
update512 context input len = update machine512 context input len

-- SHA512_Final: the digest, and the context.
unfoldable pub final512 : Context512 → Option (Bytes × Context512)
unfolding last
final512 context = elim (last machine512 context) [
  | none ↦ none
  | some done ↦ some (emit (λ w. le64 (reverse64 w)) (words done.state), wiped512)
]

-- SHA512_End: the hexadecimal digits, and the context.
unfoldable pub end512 : Context512 → Option (Bytes × Context512)
unfolding final512
end512 context = elim (final512 context) [
  | none ↦ none
  | some (digest, wiped) ↦ some (hex_of digest, wiped)
]

-- SHA512_Data, with the context in memory of any content.
unfoldable pub data512 : Context512 → Bytes → Option Bytes
unfolding init512 update512 end512
data512 memory input = elim (update512 (init512 memory) input (length input)) [
  | none ↦ none
  | some context ↦ elim (end512 context) [ none ↦ none | some (hex, wiped) ↦ some hex ]
]

-- SHA384_Update
unfoldable pub update384 : Context512 → Bytes → ℕ → Option Context512
unfolding update512
update384 context input len = update512 context input len

-- SHA384_Final: the digest, and the context.
unfoldable pub final384 : Context512 → Option (Bytes × Context512)
unfolding last
final384 context = elim (last machine512 context) [
  | none ↦ none
  | some done ↦ some (emit (λ w. le64 (reverse64 w)) (words384 done.state), wiped512)
]

-- SHA384_End: the hexadecimal digits, and the context.
unfoldable pub end384 : Context512 → Option (Bytes × Context512)
unfolding final384
end384 context = elim (final384 context) [
  | none ↦ none
  | some (digest, wiped) ↦ some (hex_of digest, wiped)
]

-- SHA384_Data, with the context in memory of any content.
unfoldable pub data384 : Context512 → Bytes → Option Bytes
unfolding init384 update384 end384
data384 memory input = elim (update384 (init384 memory) input (length input)) [
  | none ↦ none
  | some context ↦ elim (end384 context) [ none ↦ none | some (hex, wiped) ↦ some hex ]
]
