-- ===== src/Sha/Words.antt =====
-- `u_int32_t` arithmetic, bytes in memory and `memcpy`, as generic/sha1.c and generic/sha2.c
-- use them.
use e2factory.Common.{
  ℕ, ◌+◌, ◌*◌, ◌/◌, ◌%◌, ◌^◌, Option, none, some, [], ◌∷◌, ◌++◌, Bytes, leb, if◌then◌else◌, length,
  take, drop, get_or,
}

abbrev pub u32 : ℕ → ℕ
u32 n = n % 2 ^ 32

infixl 60 ◌<<<◌ ◌>>>◌
-- Shifts of a `u_int32_t`.
abbrev pub ◌<<<◌ : ℕ → ℕ → ℕ
x <<< k = u32 (x * 2 ^ k)

abbrev pub ◌>>>◌ : ℕ → ℕ → ℕ
x >>> k = x / 2 ^ k

-- `memcpy(&dst[at], src, n)`; `none` when it writes past the end of `dst`.
unfoldable pub memcpy : Bytes → ℕ → Bytes → ℕ → Option Bytes
memcpy dst at src n =
    if leb (at + n) (length dst)
    then some (take at dst ++ (take n src ++ drop (at + n) dst))
    else none

-- The `u_int32_t` at a word's index, on a little-endian machine.
abbrev pub load_le : Bytes → ℕ → ℕ
load_le bytes i =
    get_or bytes (4 * i) 0
    + 2 ^ 8 * get_or bytes (4 * i + 1) 0
    + 2 ^ 16 * get_or bytes (4 * i + 2) 0
    + 2 ^ 24 * get_or bytes (4 * i + 3) 0

-- The bytes of a `u_int32_t`, the most significant first.
abbrev pub be32 : ℕ → Bytes
be32 w = (w / 2 ^ 24 % 256) ∷ (w / 2 ^ 16 % 256) ∷ (w / 2 ^ 8 % 256) ∷ (w % 256) ∷ []
