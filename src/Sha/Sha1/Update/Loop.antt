-- ===== src/Sha/Sha1/Update/Loop.antt =====
-- generic/sha1.c, SHA1Update: the loop over whole blocks.
use e2factory.Common.{
  ℕ, zero, suc, ◌+◌, ◌*◌, ◌%◌, ◌^◌, ◌≤◌, ◌<◌, ◌≡◌, refl, sym, ap, ◌∙◌, Option, some, [], ◌++◌,
  Bytes, arith, length, take, drop, ltb, Bool-cases, inl, inr, length-take, length-drop,
  length-append, take-append-drop, drop-drop,
}
use e2factory.Sha.Words.{u32, memcpy}
use e2factory.Sha.Absorb.{Absorbed, absorb, absorb-append, absorb_full}
use e2factory.Sha.Sha1.{Regs, transform}
use e2factory.Sha.Sha1.Update.{blocks_from}

pub memcpy-fits :
    (dst : Bytes) (at : ℕ) (src : Bytes) (n : ℕ)
    → at + n ≤ length dst
    → memcpy dst at src n ≡ some (take at dst ++ (take n src ++ drop (at + n) dst))
unfolding memcpy
memcpy-fits dst at src n h = ground arith

pub length-memcpy :
    (dst : Bytes) (at : ℕ) (src : Bytes) (n : ℕ)
    → at + n ≤ length dst
    → n ≤ length src
    → length (take at dst ++ (take n src ++ drop (at + n) dst)) ≡ length dst
length-memcpy dst at src n h k = omega (
  arith,
  length-append (take at dst) (take n src ++ drop (at + n) dst),
  length-append (take n src) (drop (at + n) dst),
  length-take at dst,
  length-take n src,
  length-drop (at + n) dst,
)

abbrev pub absorb_64 : Absorbed Regs → Bytes → Absorbed Regs
absorb_64 = absorb transform 64

-- One round of the loop absorbs a block.
absorb_block :
    (st : Regs) (input : Bytes) (i : ℕ)
    → i + 64 ≤ length input
    → absorb_64 (record { state = st; waiting = [] }) (drop i input)
      ≡ absorb_64
          (record { state = transform st (take 64 (drop i input)); waiting = [] })
          (drop (i + 64) input)
absorb_block st input i h =
    ap (absorb_64 (record { state = st; waiting = [] })) (sym (take-append-drop 64 (drop i input)))
    ∙ absorb-append transform 64 _ (take 64 (drop i input)) (drop 64 (drop i input))
    ∙ ap (λ v. absorb_64 v (drop 64 (drop i input)))
        (absorb_full transform 64 st [] (take 64 (drop i input)) (omega arith)
          (omega (arith, length-take 64 (drop i input), length-drop i input)))
    ∙ ap (absorb_64 _) (drop-drop i 64 input)

-- What the loop returns: the blocks are absorbed, and less than a block is left.
pub record Looped (input : Bytes) (i : ℕ) (st : Regs) (r : Option (Regs × ℕ)) : Type 0 where
  pub out : Regs
  pub at : ℕ
  pub returns : r ≡ some (out, at)
  pub within : at ≤ length input
  pub few : length input < at + 64
  pub absorbs :
      absorb_64 (record { state = st; waiting = [] }) (drop i input)
      ≡ absorb_64 (record { state = out; waiting = [] }) (drop at input)
  pub aligned : (at % 64 ≡ i % 64)

pub blocks_from-Looped :
    (fuel : ℕ) (input : Bytes) (i : ℕ) (st : Regs)
    → i ≤ length input
    → length input < i + 64 * fuel
    → length input + 64 < 2 ^ 32
    → Looped input i st (blocks_from fuel (length input) input i st)
unfolding blocks_from
blocks_from-Looped zero input i st h k small = absurd (omega arith)
blocks_from-Looped (suc fuel) input i st h k small =
    elim (Bool-cases (ltb (u32 (i + 63)) (length input))) [
      | inl go_on ↦
          let next : u32 (i + 64) ≡ i + 64 = omega arith in
          let room : i + 64 ≤ length input = ground arith in
          let l =
            blocks_from-Looped fuel input (i + 64) (transform st (take 64 (drop i input))) room
              (omega arith) small in
          rw (go_on, next)
            (record {
              out = l.out;
              at = l.at;
              returns = l.returns;
              within = l.within;
              few = l.few;
              absorbs = absorb_block st input i room ∙ l.absorbs;
              aligned = omega (arith, l.aligned);
            })
      | inr stop ↦ rw stop (record {
        out = st;
        at = i;
        returns = refl;
        within = h;
        few = ground arith;
        absorbs = refl;
        aligned = refl;
      })
    ]
