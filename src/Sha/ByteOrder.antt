-- ===== src/Sha/ByteOrder.antt =====
-- generic/sha2.c: the words in memory on a little-endian machine, and REVERSE32 and REVERSE64.
pub mod Laws
pub mod Wide
use e2factory.Common.{ℕ, ◌+◌, ◌*◌, ◌/◌, ◌%◌, ◌^◌, bit_and, bit_or, [], ◌∷◌, ◌++◌, Bytes, get_or}
use e2factory.Sha.Words.{◌<<<◌, ◌>>>◌, load_le, be32}

-- REVERSE32
unfoldable pub reverse32 : ℕ → ℕ
reverse32 w =
    let tmp = bit_or (w >>> 16) (w <<< 16) in
    bit_or (bit_and tmp 0xff00ff00 >>> 8) (bit_and tmp 0x00ff00ff <<< 8)

-- REVERSE64
unfoldable pub reverse64 : ℕ → ℕ
reverse64 w =
    let x = bit_or (w / 2 ^ 32) (w * 2 ^ 32 % 2 ^ 64) in
    let y =
      bit_or (bit_and x 0xff00ff00ff00ff00 / 2 ^ 8)
        (bit_and x 0x00ff00ff00ff00ff * 2 ^ 8 % 2 ^ 64) in
    bit_or (bit_and y 0xffff0000ffff0000 / 2 ^ 16) (bit_and y 0x0000ffff0000ffff * 2 ^ 16 % 2 ^ 64)

-- The bytes of a `u_int32_t` and of a `u_int64_t` in memory.
abbrev pub le32 : ℕ → Bytes
le32 w = (w % 256) ∷ (w / 2 ^ 8 % 256) ∷ (w / 2 ^ 16 % 256) ∷ (w / 2 ^ 24 % 256) ∷ []

abbrev pub le64 : ℕ → Bytes
le64 w = le32 (w % 2 ^ 32) ++ le32 (w / 2 ^ 32)

-- The `u_int64_t` at a word's index.
abbrev pub load_le64 : Bytes → ℕ → ℕ
load_le64 bytes i = load_le bytes (2 * i) + 2 ^ 32 * load_le bytes (2 * i + 1)

-- The bytes of a `u_int64_t`, the most significant first.
abbrev pub be64 : ℕ → Bytes
be64 w = be32 (w / 2 ^ 32) ++ be32 (w % 2 ^ 32)
