-- ===== src/Sha/Sha1/Update.antt =====
-- generic/sha1.c: SHA1Update. `none` is a write past the end of the buffer, or a loop that does
-- not end.
pub mod Counting
pub mod Loop
pub mod Refinement
use e2factory.Common.{
  ℕ, zero, suc, ◌+◌, ◌-◌, ◌*◌, ◌/◌, ◌%◌, ◌^◌, bit_and, Option, none, some, List, [], ◌∷◌, ◌++◌,
  Bytes, ltb, if◌then◌else◌, length, take, drop,
}
use e2factory.Sha.Words.{u32, ◌<<<◌, ◌>>>◌, memcpy}
use e2factory.Sha.Sha1.{Regs, Context, transform}

-- `for ( ; i + 63 < len; i += 64) SHA1Transform(context->state, &data[i]);`
unfoldable pub blocks_from : ℕ → ℕ → Bytes → ℕ → Regs → Option (Regs × ℕ)
blocks_from zero len input i st = none
blocks_from (suc fuel) len input i st =
    let rest = blocks_from fuel len input (u32 (i + 64)) (transform st (take 64 (drop i input))) in
    if ltb (u32 (i + 63)) len then rest else some (st, i)

-- The two counters of bits, with the carry by comparison.
unfoldable pub count_low : ℕ → ℕ → ℕ
count_low count0 len = u32 (count0 + (len <<< 3))

unfoldable pub count_high : ℕ → ℕ → ℕ → ℕ
unfolding count_low
count_high count0 count1 len =
    let carried = if ltb (count_low count0 len) (len <<< 3) then u32 (count1 + 1) else count1 in
    u32 (carried + (len >>> 29))

-- The last `memcpy`.
unfoldable pub keep_rest : Context → Bytes → ℕ → Bytes → ℕ → ℕ → Regs → Option Context
keep_rest context buffer j input i len st = elim (memcpy buffer j (drop i input) (len - i)) [
  | none ↦ none
  | some buffer' ↦ some (record context { state = st; buffer = buffer' })
]

-- The case in which the buffer fills up.
unfoldable pub fill_and_go : Context → ℕ → Bytes → ℕ → Option Context
fill_and_go context j input len = elim (memcpy context.buffer j input (64 - j)) [
  | none ↦ none
  | some buffer ↦
      elim (blocks_from (len / 64 + 1) len input (64 - j) (transform context.state buffer)) [
        | none ↦ none
        | some (st, i) ↦ keep_rest context buffer 0 input i len st
      ]
]

-- SHA1Update
unfoldable pub update : Context → Bytes → ℕ → Option Context
update context input len =
    let j = bit_and (context.count0 >>> 3) 63 in
    let counted = record context {
      count0 = count_low context.count0 len;
      count1 = count_high context.count0 context.count1 len;
    } in
    if ltb 63 (u32 (j + len))
    then fill_and_go counted j input len
    else keep_rest counted context.buffer j input 0 len context.state
