-- ===== src/Sha/Sha256.antt =====
-- generic/sha2.c: SHA-256, on a little-endian machine and without SHA2_UNROLL_TRANSFORM.
pub mod Laws
pub mod Blocks
pub mod Stream
use e2factory.Common.{
  ℕ, ◌+◌, ◌-◌, ◌*◌, ◌/◌, ◌%◌, ◌^◌, bit_and, bit_or, bit_xor, List, [], ◌∷◌, Bytes, replicate,
}
use e2factory.Sha.Words.{u32, ◌<<<◌, ◌>>>◌, load_le}
use e2factory.Sha.ByteOrder.{reverse32, reverse64, le32, le64}
use e2factory.Sha.Sha2.{Machine, Context}
use e2factory.Sha.Sha2.Rounds.{Regs, Words, transform}

-- S32
unfoldable pub s32 : ℕ → ℕ → ℕ
s32 b x = bit_or (x >>> b) (x <<< (32 - b))

-- Ch
unfoldable pub ch : ℕ → ℕ → ℕ → ℕ
ch x y z = bit_xor (bit_and x y) (bit_and (0xffffffff - x) z)

-- Sigma0_256, Sigma1_256, sigma0_256 and sigma1_256
unfoldable pub big_sigma0 : ℕ → ℕ
unfolding s32
big_sigma0 x = bit_xor (bit_xor (s32 2 x) (s32 13 x)) (s32 22 x)

unfoldable pub big_sigma1 : ℕ → ℕ
unfolding s32
big_sigma1 x = bit_xor (bit_xor (s32 6 x) (s32 11 x)) (s32 25 x)

unfoldable pub small_sigma0 : ℕ → ℕ
unfolding s32
small_sigma0 x = bit_xor (bit_xor (s32 7 x) (s32 18 x)) (x >>> 3)

unfoldable pub small_sigma1 : ℕ → ℕ
unfolding s32
small_sigma1 x = bit_xor (bit_xor (s32 17 x) (s32 19 x)) (x >>> 10)

-- K256
abbrev pub k256 : List ℕ
k256 =
    0x428a2f98 ∷ 0x71374491 ∷ 0xb5c0fbcf ∷ 0xe9b5dba5 ∷ 0x3956c25b ∷ 0x59f111f1 ∷ 0x923f82a4
    ∷ 0xab1c5ed5 ∷ 0xd807aa98 ∷ 0x12835b01 ∷ 0x243185be ∷ 0x550c7dc3 ∷ 0x72be5d74 ∷ 0x80deb1fe
    ∷ 0x9bdc06a7 ∷ 0xc19bf174 ∷ 0xe49b69c1 ∷ 0xefbe4786 ∷ 0x0fc19dc6 ∷ 0x240ca1cc ∷ 0x2de92c6f
    ∷ 0x4a7484aa ∷ 0x5cb0a9dc ∷ 0x76f988da ∷ 0x983e5152 ∷ 0xa831c66d ∷ 0xb00327c8 ∷ 0xbf597fc7
    ∷ 0xc6e00bf3 ∷ 0xd5a79147 ∷ 0x06ca6351 ∷ 0x14292967 ∷ 0x27b70a85 ∷ 0x2e1b2138 ∷ 0x4d2c6dfc
    ∷ 0x53380d13 ∷ 0x650a7354 ∷ 0x766a0abb ∷ 0x81c2c92e ∷ 0x92722c85 ∷ 0xa2bfe8a1 ∷ 0xa81a664b
    ∷ 0xc24b8b70 ∷ 0xc76c51a3 ∷ 0xd192e819 ∷ 0xd6990624 ∷ 0xf40e3585 ∷ 0x106aa070 ∷ 0x19a4c116
    ∷ 0x1e376c08 ∷ 0x2748774c ∷ 0x34b0bcb5 ∷ 0x391c0cb3 ∷ 0x4ed8aa4a ∷ 0x5b9cca4f ∷ 0x682e6ff3
    ∷ 0x748f82ee ∷ 0x78a5636f ∷ 0x84c87814 ∷ 0x8cc70208 ∷ 0x90befffa ∷ 0xa4506ceb ∷ 0xbef9a3f7
    ∷ 0xc67178f2 ∷ []

abbrev pub initial : Regs
initial = record {
  a = 0x6a09e667;
  b = 0xbb67ae85;
  c = 0x3c6ef372;
  d = 0xa54ff53a;
  e = 0x510e527f;
  f = 0x9b05688c;
  g = 0x1f83d9ab;
  h = 0x5be0cd19;
}

-- What SHA-256 puts into the rounds.
abbrev pub words256 : Words
words256 = record {
  word = u32;
  ch = ch;
  big_sigma0 = big_sigma0;
  big_sigma1 = big_sigma1;
  small_sigma0 = small_sigma0;
  small_sigma1 = small_sigma1;
  constants = k256;
  load = λ block j. reverse32 (load_le block j);
  bytes = le32;
  later = 48;
}

-- SHA256_Transform
unfoldable pub transform256 : Regs → Bytes → Regs × Bytes
unfolding transform ch big_sigma0 big_sigma1 small_sigma0 small_sigma1
transform256 = transform words256

-- What SHA-256 puts into the streaming.
abbrev pub machine256 : Machine
machine256 = record {
  State = Regs;
  Count = ℕ;
  block = 64;
  short = 56;
  cleared = 56;
  transform = transform256;
  add = λ bitcount n. (bitcount + 8 * n) % 2 ^ 64;
  waits = λ bitcount. bitcount / 8 % 64;
  count_bytes = λ bitcount. le64 (reverse64 bitcount);
}

-- SHA256_CTX
abbrev pub Context256 : Type 0
Context256 = Context machine256

-- SHA256_Init
unfoldable pub init : Context256 → Context256
init context = record { state = initial; bitcount = 0; buffer = replicate 64 0 }
