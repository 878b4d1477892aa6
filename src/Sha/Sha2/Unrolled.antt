-- ===== src/Sha/Sha2/Unrolled.antt =====
-- generic/sha2.c: SHA256_Transform and SHA512_Transform with SHA2_UNROLL_TRANSFORM. A macro works
-- on the registers in place, and its eight calls rename them.
pub mod Equivalence
use e2factory.Common.{ℕ, zero, suc, ◌+◌, bit_and, List, Bytes, get_or, set, replicate}
use e2factory.Sha.Sha2.Rounds.{Regs, Words, maj, expand, add, emit}
use e2factory.Sha.Sha256.{words256}
use e2factory.Sha.Sha512.{words512}

-- The registers, as the call with the arguments (h,a,b,c,d,e,f,g) names them.
abbrev pub turn : Regs → Regs
turn r = record { a = r.h; b = r.a; c = r.b; d = r.c; e = r.d; f = r.e; g = r.f; h = r.g }

-- The opposite.
abbrev pub back : Regs → Regs
back r = record { a = r.b; b = r.c; c = r.d; d = r.e; e = r.f; f = r.g; g = r.h; h = r.a }

abbrev pub turned : ℕ → Regs → Regs
turned zero r = r
turned (suc n) r = turn (turned n r)

abbrev pub turned_back : ℕ → Regs → Regs
turned_back zero r = r
turned_back (suc n) r = turned_back n (back r)

-- The local variables.
pub record Locals : Type 0 where
  pub j : ℕ
  pub w : List ℕ
  pub r : Regs

-- The macro's `n`-th call, counted from 0.
abbrev pub renamed : ℕ → (Locals → Locals) → Locals → Locals
renamed n macro v =
    let x = macro (record v { r = turned n v.r }) in record x { r = turned_back n x.r }

-- The eight calls in the body of a loop.
unfoldable pub eight : (Locals → Locals) → Locals → Locals
eight macro v =
    let v1 = renamed 0 macro v in
    let v2 = renamed 1 macro v1 in
    let v3 = renamed 2 macro v2 in
    let v4 = renamed 3 macro v3 in
    let v5 = renamed 4 macro v4 in
    let v6 = renamed 5 macro v5 in let v7 = renamed 6 macro v6 in renamed 7 macro v7

-- The loop, `j` growing by 8 each time.
unfoldable pub passes : ℕ → (Locals → Locals) → Locals → Locals
passes zero macro v = v
passes (suc n) macro v = passes n macro (eight macro v)

module _ (o : Words) where
  -- T1, and the two registers that a macro changes.
  unfoldable pub in_place : ℕ → ℕ → Regs → Regs
  in_place j w r =
      let t1 = o.word (r.h + o.big_sigma1 r.e + o.ch r.e r.f r.g + get_or o.constants j 0 + w) in
      record r { d = o.word (r.d + t1); h = o.word (t1 + o.big_sigma0 r.a + maj r.a r.b r.c) }

  -- ROUND256_0_TO_15 and ROUND512_0_TO_15
  unfoldable pub round_0_to_15 : Bytes → Locals → Locals
  unfolding in_place
  round_0_to_15 block v =
      let word = o.load block v.j in
      record { j = v.j + 1; w = set v.w v.j word; r = in_place v.j word v.r }

  -- ROUND256 and ROUND512
  unfoldable pub round_later : Locals → Locals
  unfolding in_place expand
  round_later v =
      let word = expand o v.j v.w in
      record { j = v.j + 1; w = set v.w (bit_and v.j 0x0f) word; r = in_place v.j word v.r }

  -- The whole transform, with the number of passes of its second loop.
  unfoldable pub unrolled : ℕ → Regs → Bytes → Regs × Bytes
  unfolding passes round_0_to_15 round_later
  unrolled laps state block =
      let first =
        passes 2 (round_0_to_15 block) (record { j = 0; w = replicate 16 0; r = state }) in
      let last = passes laps round_later first in (add o state last.r, emit o.bytes last.w)

-- SHA256_Transform, the second loop up to 64.
unfoldable pub unrolled256 : Regs → Bytes → Regs × Bytes
unrolled256 = unrolled words256 6

-- SHA512_Transform, the second loop up to 80.
unfoldable pub unrolled512 : Regs → Bytes → Regs × Bytes
unrolled512 = unrolled words512 8
