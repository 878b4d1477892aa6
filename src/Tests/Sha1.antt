-- ===== src/Tests/Sha1.antt =====
-- generic/sha1.c on the test vector that its header gives.
use e2factory.Common.{◌≡◌, refl, Option, none, some, Bytes, codes, length, replicate}
use e2factory.Sha.Sha1.{Context, initial, transform}
use e2factory.Sha.Sha1.Update.{update, blocks_from, count_low, count_high, keep_rest, fill_and_go}
use e2factory.Sha.Sha1.Final.{final, pad_zeros, digest_of, hex_of}
use e2factory.Sha.Words.{memcpy}

abbrev empty : Context
empty = record { state = initial; count0 = 0; count1 = 0; buffer = replicate 64 0 }

sha1_hex : Bytes → Option Bytes
unfolding update final pad_zeros digest_of hex_of transform memcpy blocks_from count_low count_high
    keep_rest fill_and_go
sha1_hex message = elim (update empty message (length message)) [
  | none ↦ none
  | some context ↦ elim (final context) [ none ↦ none | some (digest, rest) ↦ some (hex_of digest) ]
]

sha1_abc : sha1_hex (codes "abc") ≡ some (codes "a9993e364706816aba3e25717850c26c9cd0d89d")
unfolding sha1_hex
sha1_abc = refl

sha1_two_blocks :
    sha1_hex (codes "abcdbcdecdefdefgefghfghighijhijkijkljklmklmnlmnomnopnopq")
    ≡ some (codes "84983e441c3bd26ebaae4aa1f95129e5e54670f1")
unfolding sha1_hex
sha1_two_blocks = refl
