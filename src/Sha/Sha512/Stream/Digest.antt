-- ===== src/Sha/Sha512/Stream/Digest.antt =====
-- generic/sha2.c: SHA-512 and SHA-384 of a message over the rounds of the source, and whole
-- runs.
use e2factory.Common.{ℕ, ◌^◌, ◌≡◌, fun_ext, refl, ap, ◌∙◌, some, [], Bytes, arith}
use e2factory.Sha.ByteOrder.{reverse64, le64, be64}
use e2factory.Sha.ByteOrder.Wide.{le64-reverse64}
use e2factory.Sha.Absorb.{absorb, absorb-Keeps}
use e2factory.Sha.Sha1.Final.{hex_of}
use e2factory.Sha.Sha2.Rounds.{Regs, emit, words}
use e2factory.Sha.Sha2.Rounds.Range.{Below, Below-transform, emit_same}
use e2factory.Sha.Sha2.Rounds.Schedule.{compressed, transform-compressed}
use e2factory.Sha.Sha2.Refinement.{compress}
use e2factory.Sha.Sha2.Digest.{Holds, hashed, padded, update-Holds, last-padded}
use e2factory.Sha.Sha512.{
  Context512, machine512, words512, transform512, initial512, initial384, init512, init384,
}
use e2factory.Sha.Sha512.Laws.{machine512-IsMachine}
use e2factory.Sha.Sha512.Stream.{
  update512, final512, end512, data512, update384, final384, end384, data384, wiped512, words384,
}

-- The context stands for a message.
abbrev pub Holds512 : Regs → Context512 → Bytes → Type 0
Holds512 start = Holds machine512 machine512-IsMachine start

-- The state after the padded message.
abbrev last_state : Regs → Bytes → Regs
last_state start msg =
    (hashed machine512 machine512-IsMachine start
      (padded machine512 machine512-IsMachine start msg)).state

-- The same by the compression function of FIPS 180.
abbrev fips_state : Regs → Bytes → Regs
fips_state start msg =
    (absorb (compressed words512) 128 (record { state = start; waiting = [] })
      (padded machine512 machine512-IsMachine start msg)).state

last_state-fips_state : (start : Regs) (msg : Bytes) → last_state start msg ≡ fips_state start msg
unfolding transform512
last_state-fips_state start msg =
    ap
      (λ (f : Regs → Bytes → Regs).
        (absorb f 128 (record { state = start; waiting = [] })
          (padded machine512 machine512-IsMachine start msg)).state)
      (fun_ext λ st. fun_ext λ block. transform-compressed words512 st block)

Below-last_state :
    (start : Regs) (msg : Bytes)
    → Below (2 ^ 64) (words start)
    → Below (2 ^ 64) (words (last_state start msg))
unfolding transform512
Below-last_state start msg small =
    absorb-Keeps (compress machine512) 128 (λ st. Below (2 ^ 64) (words st))
      (Below-transform words512 (2 ^ 64) (λ n. omega arith)) _
      (padded machine512 machine512-IsMachine start msg) small

Below-words384 : (bound : ℕ) (st : Regs) → Below bound (words st) → Below bound (words384 st)
Below-words384 bound st (a, (b, (c, (d, (e, (f, rest)))))) = (a, (b, (c, (d, (e, (f, tt))))))

-- SHA-512 of FIPS 180 over the rounds of the source: the padded message in blocks, each
-- compressed with the schedule of all rounds, and the words of the state, the most significant
-- byte first.
pub sha512 : Bytes → Bytes
sha512 msg = emit be64 (words (fips_state initial512 msg))

pub init-Holds512 : (memory : Context512) → Holds512 initial512 (init512 memory) []
unfolding init512 absorb
init-Holds512 memory = record {
  valid = record { counted = record { low = omega arith; high = omega arith }; sized = refl };
  absorbed = refl;
  counted = refl;
}

-- SHA512_Final of a context that stands for a message ends, writes nothing outside the buffer,
-- gives SHA-512 of the message over the rounds of the source, and wipes the context.
pub final512-sha512 :
    (c : Context512) (msg : Bytes)
    → Holds512 initial512 c msg
    → final512 c ≡ some (sha512 msg, wiped512)
unfolding final512 sha512
final512-sha512 c msg h =
    let (done, returns, state) = last-padded machine512 machine512-IsMachine initial512 c msg h in
    rw (returns, final512)
      (ap (λ st. some (emit (λ w. le64 (reverse64 w)) (words st), wiped512)) state
        ∙ ap (λ bytes. some (bytes, wiped512))
            (emit_same (2 ^ 64) _ be64 le64-reverse64 (words (last_state initial512 msg)) (
                Below-last_state initial512 msg (
                  omega arith,
                  (
                    omega arith,
                    (
                      omega arith,
                      (omega arith, (omega arith, (omega arith, (omega arith, (omega arith, tt))))),
                    ),
                  ),
                ))
              ∙ ap (λ st. emit be64 (words st)) (last_state-fips_state initial512 msg)))

-- SHA512_Data of any input, in memory of any content, gives the hexadecimal digits of SHA-512 of
-- the input over the rounds of the source.
pub data512-sha512 :
    (memory : Context512) (input : Bytes) → data512 memory input ≡ some (hex_of (sha512 input))
unfolding data512 end512 update512
data512-sha512 memory input =
    let (next, returns, holds) =
      update-Holds machine512 machine512-IsMachine initial512 (init512 memory) [] input
        (init-Holds512 memory) in
    rw (returns, data512) (rw (final512-sha512 next input holds, data512) refl)

-- SHA-384 of FIPS 180 over the rounds of the source: the padded message in blocks, each
-- compressed with the schedule of all rounds, and six words of the state, the most significant
-- byte first.
pub sha384 : Bytes → Bytes
sha384 msg = emit be64 (words384 (fips_state initial384 msg))

pub init-Holds384 : (memory : Context512) → Holds512 initial384 (init384 memory) []
unfolding init384 absorb
init-Holds384 memory = record {
  valid = record { counted = record { low = omega arith; high = omega arith }; sized = refl };
  absorbed = refl;
  counted = refl;
}

-- SHA384_Final of a context that stands for a message ends, writes nothing outside the buffer,
-- gives SHA-384 of the message over the rounds of the source, and wipes the context.
pub final384-sha384 :
    (c : Context512) (msg : Bytes)
    → Holds512 initial384 c msg
    → final384 c ≡ some (sha384 msg, wiped512)
unfolding final384 sha384
final384-sha384 c msg h =
    let (done, returns, state) = last-padded machine512 machine512-IsMachine initial384 c msg h in
    rw (returns, final384)
      (ap (λ st. some (emit (λ w. le64 (reverse64 w)) (words384 st), wiped512)) state
        ∙ ap (λ bytes. some (bytes, wiped512))
            (emit_same (2 ^ 64) _ be64 le64-reverse64 (words384 (last_state initial384 msg)) (
                Below-words384 (2 ^ 64) (last_state initial384 msg) (
                  Below-last_state initial384 msg (
                    omega arith,
                    (
                      omega arith,
                      (
                        omega arith,
                        (
                          omega arith,
                          (omega arith, (omega arith, (omega arith, (omega arith, tt)))),
                        ),
                      ),
                    ),
                  )))
              ∙ ap (λ st. emit be64 (words384 st)) (last_state-fips_state initial384 msg)))

-- SHA384_Data of any input, in memory of any content, gives the hexadecimal digits of SHA-384 of
-- the input over the rounds of the source.
pub data384-sha384 :
    (memory : Context512) (input : Bytes) → data384 memory input ≡ some (hex_of (sha384 input))
unfolding data384 end384 update384 update512
data384-sha384 memory input =
    let (next, returns, holds) =
      update-Holds machine512 machine512-IsMachine initial384 (init384 memory) [] input
        (init-Holds384 memory) in
    rw (returns, data384) (rw (final384-sha384 next input holds, data384) refl)
