-- ===== src/Sha/Sha1/Final/Digest.antt =====
-- generic/sha1.c: SHA1Final and whole runs, against the padding rule of SHA-1: the message, a bit
-- 1, zeros, and the number of bits in 64 bits.
use e2factory.Common.{
  ℕ, zero, suc, ◌+◌, ◌-◌, ◌*◌, ◌/◌, ◌%◌, ◌^◌, ◌<◌, ◌≡◌, refl, true, false, sym, fun_ext, ap, ap₂,
  ◌∙◌, some, [], ◌++◌, Bytes, arith, length, replicate, ◌==◌, bit_and, append-nil, append_assoc,
  length-append, length-replicate,
}
use e2factory.Common.Bits.{bit_and_504}
use e2factory.Sha.Words.{be32}
use e2factory.Sha.Absorb.{Absorbed, absorb, absorb-append}
use e2factory.Sha.Sha1.{Regs, Context, transform, initial, init}
use e2factory.Sha.Sha1.Fips.{compressed}
use e2factory.Sha.Sha1.Schedule.{transform-compressed_sha1}
use e2factory.Sha.Sha1.Update.{update}
use e2factory.Sha.Sha1.Update.Refinement.{IsContext, used, view, bits, update-Updated}
use e2factory.Sha.Sha1.Final.{pad_zeros, final, digest_of, wiped, byte_80, byte_00}

abbrev pub start : Absorbed Regs
start = record { state = initial; waiting = [] }

-- The context stands for the message `m`.
pub record Holds (c : Context) (m : Bytes) : Type 0 where
  pub valid : IsContext c
  pub absorbed : view c ≡ absorb transform 64 start m
  pub counted : bits c ≡ 8 * length m % 2 ^ 64

pub init-Holds : (c : Context) → length c.buffer ≡ 64 → Holds (init c) []
unfolding init absorb
init-Holds c sized = record {
  valid = record { low = omega arith; high = omega arith; sized = sized };
  absorbed = refl;
  counted = omega arith;
}

pub update-Holds :
    (c : Context) (m input : Bytes)
    → Holds c m
    → length input + 128 < 2 ^ 32
    → (next : Context) × (update c input (length input) ≡ some next) × Holds next (m ++ input)
update-Holds c m input h small =
    let u = update-Updated c input h.valid small in
    (
      u.next,
      u.returns,
      record {
        valid = u.is_context;
        absorbed =
            u.absorbs
            ∙ ap (λ v. absorb transform 64 v input) h.absorbed
            ∙ sym (absorb-append transform 64 start m input);
        counted = omega (arith, u.counts, h.counted, length-append m input);
      },
    )

-- The fill of the buffer is that of the message.
used-Holds : (c : Context) (m : Bytes) → Holds c m → used c ≡ length m % 64
used-Holds c m h = omega (arith, h.counted, h.valid.low)

-- The loop appends zeros until the message fills 56 bytes of its last block.
pad_zeros-Holds :
    (k fuel : ℕ) (c : Context) (m : Bytes)
    → Holds c m
    → k < 64
    → (length m + k) % 64 ≡ 56
    → k < fuel
    → (next : Context) × (pad_zeros fuel c ≡ some next) × Holds next (m ++ replicate k 0)
unfolding pad_zeros
pad_zeros-Holds k zero c m h small target enough = absurd (omega arith)
pad_zeros-Holds zero (suc fuel) c m h small target enough =
    let full : (bit_and c.count0 504 == 448) ≡ true =
      ground (arith, bit_and_504 c.count0, used-Holds c m h) in
    (c, rw full refl, rw append-nil h)
pad_zeros-Holds (suc k) (suc fuel) c m h small target enough =
    let more : (bit_and c.count0 504 == 448) ≡ false =
      ground (arith, bit_and_504 c.count0, used-Holds c m h) in
    let (next, returns, holds) = update-Holds c m byte_00 h (omega arith) in
    let (last, ends, kept) =
      pad_zeros-Holds k fuel next (m ++ byte_00) holds (omega arith)
        (omega (arith, length-append m byte_00)) (omega arith) in
    (last, rw (more, returns, ends) refl, rw append_assoc at kept)

-- The eight bytes of a 64-bit number, the most significant first.
abbrev pub be64 : ℕ → Bytes
be64 n = be32 (n / 2 ^ 32) ++ be32 (n % 2 ^ 32)

abbrev pub zeros : ℕ → ℕ
zeros len = (119 - len % 64) % 64

-- The message with its padding, by the definition of SHA-1.
pub padded : Bytes → Bytes
padded m = ((m ++ byte_80) ++ replicate (zeros (length m)) 0) ++ be64 (8 * length m % 2 ^ 64)

pub length-padded : (m : Bytes) → length (padded m) % 64 ≡ 0
unfolding padded
length-padded m = omega (
  arith,
  length-append ((m ++ byte_80) ++ replicate (zeros (length m)) 0) (be64 (8 * length m % 2 ^ 64)),
  length-append (m ++ byte_80) (replicate (zeros (length m)) 0),
  length-append m byte_80,
  length-replicate {A = ℕ} (zeros (length m)) 0,
)

-- SHA-1 of FIPS 180, over the functions on words of the source: the padded message in blocks,
-- each compressed with the schedule of all rounds.
pub sha1 : Bytes → Bytes
sha1 m = digest_of (absorb compressed 64 start (padded m)).state

absorb-compressed : (m : Bytes) → absorb transform 64 start m ≡ absorb compressed 64 start m
absorb-compressed m =
    ap (λ f. absorb f 64 start m)
      (fun_ext λ st. fun_ext λ block. transform-compressed_sha1 st block)

final-steps :
    (c marked filled done : Context)
    → update c byte_80 1 ≡ some marked
    → pad_zeros 65 marked ≡ some filled
    → update filled (be32 c.count1 ++ be32 c.count0) 8 ≡ some done
    → final c ≡ some (digest_of done.state, wiped)
unfolding final
final-steps c marked filled done r1 r2 r3 = rw (r1, final) (rw (r2, final) (rw (r3, final) refl))

-- `SHA1Final` of a context that stands for a message ends, writes nothing outside the buffer, and
-- gives the digest of the padded message; what is left of the context does not depend on it.
pub final-sha1 : (c : Context) (m : Bytes) → Holds c m → final c ≡ some (sha1 m, wiped)
unfolding final sha1 padded
final-sha1 c m h =
    let (marked, r1, h1) = update-Holds c m byte_80 h (omega arith) in
    let (filled, r2, h2) =
      pad_zeros-Holds (zeros (length m)) 65 marked (m ++ byte_80) h1 (omega arith)
        (omega (arith, length-append m byte_80)) (omega arith) in
    let count = be32 c.count1 ++ be32 c.count0 in
    let (done, r3, h3) = update-Holds filled _ count h2 (omega arith) in
    let counts : count ≡ be64 (8 * length m % 2 ^ 64) =
      ap₂ (λ hi lo. be32 hi ++ be32 lo) (omega (arith, h.counted, h.valid.low))
        (omega (arith, h.counted, h.valid.low)) in
    final-steps c marked filled done r1 r2 r3
    ∙ ap (λ v. some (digest_of v.state, wiped))
        (h3.absorbed
          ∙ ap (absorb transform 64 start)
              (ap (λ w. ((m ++ byte_80) ++ replicate (zeros (length m)) 0) ++ w) counts)
          ∙ absorb-compressed (padded m))
