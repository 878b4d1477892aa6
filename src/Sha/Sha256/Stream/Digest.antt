-- ===== src/Sha/Sha256/Stream/Digest.antt =====
-- generic/sha2.c: SHA-256 of a message over the rounds of the source, and whole runs.
use e2factory.Common.{◌^◌, ◌≡◌, fun_ext, refl, ap, ◌∙◌, some, [], Bytes, arith}
use e2factory.Sha.Words.{be32}
use e2factory.Sha.ByteOrder.{reverse32, le32}
use e2factory.Sha.ByteOrder.Laws.{le32-reverse32}
use e2factory.Sha.Absorb.{absorb, absorb-Keeps}
use e2factory.Sha.Sha1.Final.{hex_of}
use e2factory.Sha.Sha2.Rounds.{Regs, emit, words}
use e2factory.Sha.Sha2.Rounds.Range.{Below, Below-transform, emit_same}
use e2factory.Sha.Sha2.Rounds.Schedule.{compressed, transform-compressed}
use e2factory.Sha.Sha2.Refinement.{compress}
use e2factory.Sha.Sha2.Digest.{Holds, hashed, padded, update-Holds, last-padded}
use e2factory.Sha.Sha256.{Context256, machine256, words256, transform256, initial, init}
use e2factory.Sha.Sha256.Laws.{machine256-IsMachine}
use e2factory.Sha.Sha256.Stream.{update256, final256, end256, data256, wiped256}

-- The context stands for a message.
abbrev pub Holds256 : Context256 → Bytes → Type 0
Holds256 = Holds machine256 machine256-IsMachine initial

pub init-Holds256 : (memory : Context256) → Holds256 (init memory) []
unfolding init absorb
init-Holds256 memory = record {
  valid = record { counted = omega arith; sized = refl };
  absorbed = refl;
  counted = refl;
}

-- The state after the padded message.
abbrev last_state : Bytes → Regs
last_state msg =
    (hashed machine256 machine256-IsMachine initial
      (padded machine256 machine256-IsMachine initial msg)).state

-- SHA-256 of FIPS 180 over the rounds of the source: the padded message in blocks, each
-- compressed with the schedule of all rounds, and the words of the state, the most significant
-- byte first.
pub sha256 : Bytes → Bytes
sha256 msg = emit be32 (
    words
      (absorb (compressed words256) 64 (record { state = initial; waiting = [] })
        (padded machine256 machine256-IsMachine initial msg)).state)

last_state-compressed : (msg : Bytes) → emit be32 (words (last_state msg)) ≡ sha256 msg
unfolding sha256 transform256
last_state-compressed msg =
    ap
      (λ (f : Regs → Bytes → Regs). emit be32 (
        words
          (absorb f 64 (record { state = initial; waiting = [] })
            (padded machine256 machine256-IsMachine initial msg)).state))
      (fun_ext λ st. fun_ext λ block. transform-compressed words256 st block)

Below-last_state : (msg : Bytes) → Below (2 ^ 32) (words (last_state msg))
unfolding transform256
Below-last_state msg =
    absorb-Keeps (compress machine256) 64 (λ st. Below (2 ^ 32) (words st))
      (Below-transform words256 (2 ^ 32) (λ n. omega arith)) _
      (padded machine256 machine256-IsMachine initial msg)
      (
        omega arith,
        (
          omega arith,
          (
            omega arith,
            (omega arith, (omega arith, (omega arith, (omega arith, (omega arith, tt))))),
          ),
        ),
      )

-- SHA256_Final of a context that stands for a message ends, writes nothing outside the buffer,
-- gives SHA-256 of the message over the rounds of the source, and wipes the context.
pub final256-sha256 :
    (c : Context256) (msg : Bytes) → Holds256 c msg → final256 c ≡ some (sha256 msg, wiped256)
unfolding final256
final256-sha256 c msg h =
    let (done, returns, state) = last-padded machine256 machine256-IsMachine initial c msg h in
    rw (returns, final256)
      (ap (λ st. some (emit (λ w. le32 (reverse32 w)) (words st), wiped256)) state
        ∙ ap (λ bytes. some (bytes, wiped256))
            (emit_same (2 ^ 32) _ be32 le32-reverse32 (words (last_state msg))
                (Below-last_state msg)
              ∙ last_state-compressed msg))

pub end256-sha256 :
    (c : Context256) (msg : Bytes)
    → Holds256 c msg
    → end256 c ≡ some (hex_of (sha256 msg), wiped256)
unfolding end256
end256-sha256 c msg h = rw (final256-sha256 c msg h, end256) refl

-- SHA256_Data of any input, in memory of any content, gives the hexadecimal digits of SHA-256 of
-- the input over the rounds of the source.
pub data256-sha256 :
    (memory : Context256) (input : Bytes) → data256 memory input ≡ some (hex_of (sha256 input))
unfolding data256 update256
data256-sha256 memory input =
    let (next, returns, holds) =
      update-Holds machine256 machine256-IsMachine initial (init memory) [] input
        (init-Holds256 memory) in
    rw (returns, data256) (rw (end256-sha256 next input holds, data256) refl)
