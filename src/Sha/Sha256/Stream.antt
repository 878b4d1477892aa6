-- ===== src/Sha/Sha256/Stream.antt =====
-- generic/sha2.c: SHA256_Update, SHA256_Final, SHA256_End and SHA256_Data, with a buffer for the
-- digest. `none` is a write past the end of the buffer, or a loop that does not end.
pub mod Refinement
pub mod Bounds
pub mod Digest
use e2factory.Common.{ℕ, Option, none, some, Bytes, length, replicate}
use e2factory.Sha.ByteOrder.{reverse32, le32}
use e2factory.Sha.Sha1.Final.{hex_of}
use e2factory.Sha.Sha2.{update, last}
use e2factory.Sha.Sha2.Rounds.{emit, words}
use e2factory.Sha.Sha256.{Context256, machine256, init}

-- SHA256_Update
unfoldable pub update256 : Context256 → Bytes → ℕ → Option Context256
unfolding update
update256 context input len = update machine256 context input len

-- What is left of a context.
abbrev pub wiped256 : Context256
wiped256 = record {
  state = record { a = 0; b = 0; c = 0; d = 0; e = 0; f = 0; g = 0; h = 0 };
  bitcount = 0;
  buffer = replicate 64 0;
}

-- SHA256_Final: the digest, and the context.
unfoldable pub final256 : Context256 → Option (Bytes × Context256)
unfolding last
final256 context = elim (last machine256 context) [
  | none ↦ none
  | some done ↦ some (emit (λ w. le32 (reverse32 w)) (words done.state), wiped256)
]

-- SHA256_End: the hexadecimal digits, and the context.
unfoldable pub end256 : Context256 → Option (Bytes × Context256)
unfolding final256
end256 context = elim (final256 context) [
  | none ↦ none
  | some (digest, wiped) ↦ some (hex_of digest, wiped)
]

-- SHA256_Data, with the context in memory of any content.
unfoldable pub data256 : Context256 → Bytes → Option Bytes
unfolding init update256 end256
data256 memory input = elim (update256 (init memory) input (length input)) [
  | none ↦ none
  | some context ↦ elim (end256 context) [ none ↦ none | some (hex, wiped) ↦ some hex ]
]
