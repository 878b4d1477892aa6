-- ===== src/Sha/Sha2.antt =====
-- generic/sha2.c: what SHA256_Update and SHA512_Update, and SHA256_Final and SHA512_Last, have in
-- common. The source writes each of them twice, for two sizes of words; here they are written
-- once, over what differs. `none` is a write past the end of the buffer, or a loop that does not
-- end.
pub mod Laws
pub mod Store
pub mod Refinement
pub mod Blocks
pub mod Padding
pub mod Last
pub mod Digest
pub mod Rounds
pub mod Unrolled
use e2factory.Common.{
  ℕ, zero, suc, ◌+◌, ◌-◌, Option, none, some, [], ◌∷◌, Bytes, ltb, leb, ◌==◌, if◌then◌else◌, take,
  drop, replicate,
}
use e2factory.Sha.Words.{memcpy}

-- What differs: the state and its transform, which also leaves its schedule in the buffer; the
-- counter of bits; the lengths.
pub record Machine : Type 1 where
  pub State : Type 0
  pub Count : Type 0
  -- SHA256_BLOCK_LENGTH
  pub block : ℕ
  -- SHA256_SHORT_BLOCK_LENGTH
  pub short : ℕ
  -- How much is set to zero after the second-to-last transform.
  pub cleared : ℕ
  -- The new state, and the buffer.
  pub transform : State → Bytes → State × Bytes
  -- `bitcount += n << 3`
  pub add : Count → ℕ → Count
  -- `(bitcount >> 3) % SHA256_BLOCK_LENGTH`
  pub waits : Count → ℕ
  -- The reversed count in memory.
  pub count_bytes : Count → Bytes

-- SHA256_CTX and SHA512_CTX
pub record Context (m : Machine) : Type 0 where
  pub state : m.State
  pub bitcount : m.Count
  pub buffer : Bytes

module _ (m : Machine) where
  -- The transform of a block, which may be the buffer itself.
  abbrev pub run : Context m → Bytes → Context m
  run context bytes =
      let r = m.transform context.state bytes in record context { state = r.0; buffer = r.1 }

  abbrev pub count : Context m → ℕ → Context m
  count context n = record context { bitcount = m.add context.bitcount n }

  -- `memcpy` and `memset` into the buffer.
  abbrev pub store : Context m → ℕ → Bytes → ℕ → Option (Context m)
  store context at bytes n = elim (memcpy context.buffer at bytes n) [
    | none ↦ none
    | some buffer ↦ some (record context { buffer = buffer })
  ]

  -- Bytes that are stored and counted.
  abbrev pub keep : Context m → ℕ → Bytes → ℕ → Option (Context m)
  keep context at bytes n = elim (store context at bytes n) [
    | none ↦ none
    | some kept ↦ some (count kept n)
  ]

  -- The loop over whole blocks, and the left-overs.
  unfoldable pub blocks_from : ℕ → Context m → Bytes → ℕ → Option (Context m)
  blocks_from zero context rest len = none
  blocks_from (suc fuel) context rest len =
      let more =
        blocks_from fuel (count (run context (take m.block rest)) m.block) (drop m.block rest)
          (len - m.block) in
      if leb m.block len then more else if ltb 0 len then keep context 0 rest len else some context

  -- The case in which bytes wait and the buffer fills up.
  unfoldable pub fill_and_go : Context m → ℕ → Bytes → ℕ → Option (Context m)
  fill_and_go context usedspace input len =
      let freespace = m.block - usedspace in
      elim (keep context usedspace input freespace) [
        | none ↦ none
        | some full ↦
            blocks_from (len + 1) (run full full.buffer) (drop freespace input) (len - freespace)
      ]

  -- SHA256_Update and SHA512_Update
  unfoldable pub update : Context m → Bytes → ℕ → Option (Context m)
  update context input len =
      let usedspace = m.waits context.bitcount in
      if len == 0
      then some context
      else if usedspace == 0
      then blocks_from (len + 1) context input len
      else if leb (m.block - usedspace) len
      then fill_and_go context usedspace input len
      else keep context usedspace input len

  -- `memset`
  abbrev pub clear : Context m → ℕ → ℕ → Option (Context m)
  clear context at n = store context at (replicate n 0) n

  -- No room for the count: the block is filled with zeros, transformed, and begun anew.
  unfoldable pub spill : Context m → ℕ → Option (Context m)
  spill context usedspace = elim (clear context usedspace (m.block - usedspace)) [
    | none ↦ none
    | some full ↦ clear (run full full.buffer) 0 m.cleared
  ]

  -- The mark, and zeros up to the count.
  unfoldable pub pad : Context m → Option (Context m)
  pad context =
      let usedspace = m.waits context.bitcount in
      if usedspace == 0
      then store context 0 (0x80 ∷ replicate (m.short - 1) 0) m.short
      else elim (store context usedspace (0x80 ∷ []) 1) [
        | none ↦ none
        | some marked ↦
            if leb (usedspace + 1) m.short
            then clear marked (usedspace + 1) (m.short - (usedspace + 1))
            else spill marked (usedspace + 1)
      ]

  -- SHA512_Last, and SHA256_Final up to the final transform.
  unfoldable pub last : Context m → Option (Context m)
  last context = elim (pad context) [
    | none ↦ none
    | some padded ↦
        elim (store padded m.short (m.count_bytes context.bitcount) (m.block - m.short)) [
          | none ↦ none
          | some full ↦ some (run full full.buffer)
        ]
  ]
