-- ===== src/Sha/Sha1/Final.antt =====
-- generic/sha1.c: SHA1Final, and generic/lsha.c: the hexadecimal digest.
pub mod Digest
use e2factory.Common.{
  ℕ, zero, suc, ◌+◌, ◌-◌, ◌*◌, ◌/◌, ◌%◌, ◌^◌, bit_and, Option, none, some, List, [], ◌∷◌, ◌++◌,
  Bytes, ltb, ◌==◌, if◌then◌else◌, length, take, drop, replicate, String, codes, get_or,
}
use e2factory.Sha.Words.{u32, be32}
use e2factory.Sha.Sha1.{Regs, Context, transform}
use e2factory.Sha.Sha1.Update.{update}

abbrev pub byte_80 : Bytes
byte_80 = 0x80 ∷ []

abbrev pub byte_00 : Bytes
byte_00 = 0x00 ∷ []

-- `while ((context->count[0] & 504) != 448) SHA1Update(context, "\0", 1);`
unfoldable pub pad_zeros : ℕ → Context → Option Context
pad_zeros zero context = none
pad_zeros (suc fuel) context =
    let more : Option Context = elim (update context byte_00 1) [
      | none ↦ none
      | some next ↦ pad_zeros fuel next
    ] in
    if bit_and context.count0 504 == 448 then some context else more

-- `digest`, the state with the most significant bytes first.
unfoldable pub digest_of : Regs → Bytes
digest_of st = be32 st.a ++ (be32 st.b ++ (be32 st.c ++ (be32 st.d ++ be32 st.e)))

abbrev pub zero_regs : Regs
zero_regs = record { a = 0; b = 0; c = 0; d = 0; e = 0 }

-- The context is wiped, and the transform run once more over it.
unfoldable pub wiped : Context
wiped = record {
  state = transform zero_regs (replicate 64 0);
  count0 = 0;
  count1 = 0;
  buffer = replicate 64 0;
}

-- SHA1Final. The loop needs at most 64 rounds.
unfoldable pub final : Context → Option (Bytes × Context)
final context =
    let finalcount = be32 context.count1 ++ be32 context.count0 in
    elim (update context byte_80 1) [
      | none ↦ none
      | some marked ↦ elim (pad_zeros 65 marked) [
        | none ↦ none
        | some padded ↦ elim (update padded finalcount 8) [
          | none ↦ none
          | some done ↦ some (digest_of done.state, wiped)
        ]
      ]
    ]

abbrev hexdigits : Bytes
hexdigits = codes "0123456789abcdef"

-- The loop of `lsha1_final` over the digest.
unfoldable pub hex_of : Bytes → Bytes
hex_of [] = []
hex_of (x ∷ xs) =
    get_or hexdigits (bit_and x 0xf0 / 16) 0 ∷ get_or hexdigits (bit_and x 0x0f) 0 ∷ hex_of xs
