-- ===== src/Tests/Hash.antt =====
-- The theorems on generic/sha1.c and generic/lsha.c, on short messages.
use e2factory.Common.{
  ℕ, ◌≡◌, refl, some, [], ◌∷◌, Bytes, codes, replicate, length, length-replicate, arith,
}
use mathlib.Core.List.{flatten}
use e2factory.Sha.Sha1.{Context, init, initial, transform}
use e2factory.Sha.Sha1.Fips.{compressed}
use e2factory.Sha.Sha1.Schedule.{transform-compressed_sha1}
use e2factory.Sha.Sha1.Update.Refinement.{IsContext}
use e2factory.Sha.Sha1.Final.{final, wiped, hex_of}
use e2factory.Sha.Sha1.Final.Digest.{init-Holds, sha1, final-sha1}
use e2factory.Sha.Lsha.{done, fault, uint_max, lsha1_init, lsha1_update}
use e2factory.Sha.Lsha.Runs.{digest_from, digest-sha1, lsha1_update-overrun}

-- What malloc returned, with something in it.
abbrev memory : Context
memory = record { state = initial; count0 = 5; count1 = 7; buffer = replicate 64 9 }

-- A context in which three bytes wait.
abbrev waiting : Context
waiting = record { state = initial; count0 = 24; count1 = 0; buffer = replicate 64 0 }

waiting-IsContext : IsContext waiting
waiting-IsContext = record { low = omega arith; high = omega arith; sized = refl }

abbrev message : ℕ → Bytes
message i = codes "luaL_argerror"

final-sha1_example : final (init memory) ≡ some (sha1 [], wiped)
final-sha1_example = final-sha1 (init memory) [] (init-Holds memory refl)

digest-sha1_example :
    digest_from message (lsha1_init memory) (codes "ab" ∷ codes "c" ∷ [])
    ≡ done (hex_of (sha1 (flatten (codes "ab" ∷ codes "c" ∷ []))))
digest-sha1_example =
    digest-sha1 message memory (codes "ab" ∷ codes "c" ∷ []) refl (omega arith, (omega arith, tt))

-- Not opened: a list of this length is never computed.
huge : Bytes
huge = replicate uint_max 0

length-huge : length huge ≡ uint_max
unfolding huge
length-huge = length-replicate {A = ℕ} uint_max 0

lsha1_update-overrun_example : lsha1_update message (some waiting) (some huge) ≡ fault
lsha1_update-overrun_example =
    lsha1_update-overrun message waiting huge waiting-IsContext (omega (arith, length-huge))
      (omega (arith, length-huge))

transform-compressed_sha1_example :
    transform initial (replicate 64 7) ≡ compressed initial (replicate 64 7)
transform-compressed_sha1_example = transform-compressed_sha1 initial (replicate 64 7)
