-- ===== src/Sha/Sha1.antt =====
-- generic/sha1.c, with SHA1HANDSOFF and on a little-endian machine: the context, the transform
-- and the three entry points. `Update` and `Final` are in children.
pub mod Update
pub mod Final
pub mod Fips
pub mod Turns
pub mod Schedule
use e2factory.Common.{
  ℕ, zero, suc, ◌+◌, ◌-◌, ◌*◌, ◌/◌, ◌%◌, ◌^◌, bit_and, bit_or, bit_xor, Bool, true, false, Option,
  none, some, List, [], ◌∷◌, ◌++◌, map, Bytes, ltb, leb, ◌==◌, if◌then◌else◌, length, take, drop,
  get_or, set, replicate,
}
use e2factory.Sha.Words.{u32, ◌<<<◌, ◌>>>◌, memcpy, load_le}

-- `context->state`, also the working variables a to e.
pub record Regs : Type 0 where
  pub a : ℕ
  pub b : ℕ
  pub c : ℕ
  pub d : ℕ
  pub e : ℕ

-- SHA1_CTX, with `count[0]` and `count[1]`.
pub record Context : Type 0 where
  pub state : Regs
  pub count0 : ℕ
  pub count1 : ℕ
  pub buffer : Bytes

-- `rol(value, bits)`
unfoldable pub rol : ℕ → ℕ → ℕ
rol value bits = bit_or (value <<< bits) (value >>> (32 - bits))

-- `block->l` as it is loaded, before the bytes are swapped.
unfoldable pub words_le : ℕ → ℕ → Bytes → List ℕ
words_le zero i bytes = []
words_le (suc left) i bytes = load_le bytes i ∷ words_le left (i + 1) bytes

-- `blk0(i)`: the word with its bytes swapped, in place.
unfoldable pub blk0 : List ℕ → ℕ → List ℕ
unfolding rol
blk0 l i =
    let w = get_or l i 0 in
    set l i (bit_or (bit_and (rol w 24) 0xff00ff00) (bit_and (rol w 8) 0x00ff00ff))

-- `blk(i)`: the next word of the schedule, over the oldest one.
unfoldable pub blk : List ℕ → ℕ → List ℕ
unfolding rol
blk l i =
    let old = λ (k : ℕ). get_or l (bit_and (i + k) 15) 0 in
    set l (bit_and i 15) (rol (bit_xor (bit_xor (bit_xor (old 13) (old 8)) (old 2)) (old 0)) 1)

-- The three ways to mix, each in the rounds that the macros R0 to R4 give it.
unfoldable pub mix : ℕ → ℕ → ℕ → ℕ → ℕ
mix i w x y =
    if ltb i 20
    then bit_xor (bit_and w (bit_xor x y)) y
    else if ltb i 40
    then bit_xor (bit_xor w x) y
    else if ltb i 60
    then bit_or (bit_and (bit_or w x) y) (bit_and w x)
    else bit_xor (bit_xor w x) y

abbrev pub constant : ℕ → ℕ
constant i =
    if ltb i 20
    then 0x5a827999
    else if ltb i 40
    then 0x6ed9eba1
    else if ltb i 60
    then 0x8f1bbcdc
    else 0xca62c1d6

-- `blk0` in the first 16 rounds, then `blk`.
unfoldable pub expand : List ℕ → ℕ → List ℕ
unfolding blk0 blk
expand l i = if ltb i 16 then blk0 l i else blk l i

-- The new value of `z` in R0 to R4.
unfoldable pub mixed : ℕ → ℕ → ℕ → ℕ → ℕ → ℕ → List ℕ → ℕ
unfolding mix rol
mixed i v w x y z l = u32 (z + (mix i w x y + get_or l (bit_and i 15) 0 + constant i + rol v 5))

-- `block->l` and the working variables.
pub record Work : Type 0 where
  pub l : List ℕ
  pub regs : Regs

-- Five rounds, in which the five variables take turns; the calls R(a,b,c,d,e,i),
-- R(e,a,b,c,d,i+1), R(d,e,a,b,c,i+2), R(c,d,e,a,b,i+3), R(b,c,d,e,a,i+4).
unfoldable pub five : ℕ → Work → Work
unfolding expand mixed rol
five i s =
    let r = s.regs in
    let l0 = expand s.l i in
    let e0 = mixed i r.a r.b r.c r.d r.e l0 in
    let b0 = rol r.b 30 in
    let l1 = expand l0 (i + 1) in
    let d1 = mixed (i + 1) e0 r.a b0 r.c r.d l1 in
    let a1 = rol r.a 30 in
    let l2 = expand l1 (i + 2) in
    let c2 = mixed (i + 2) d1 e0 a1 b0 r.c l2 in
    let e2 = rol e0 30 in
    let l3 = expand l2 (i + 3) in
    let b3 = mixed (i + 3) c2 d1 e2 a1 b0 l3 in
    let d3 = rol d1 30 in
    let l4 = expand l3 (i + 4) in
    let a4 = mixed (i + 4) b3 c2 d3 e2 a1 l4 in
    let c4 = rol c2 30 in
    record { l = l4; regs = record { a = a4; b = b3; c = c4; d = d3; e = e2 } }

-- The unrolled rounds from `i` on, five at a time.
unfoldable pub rounds_from : ℕ → ℕ → Work → Work
unfolding five
rounds_from zero i s = s
rounds_from (suc left) i s = rounds_from left (i + 5) (five i s)

-- SHA1Transform
unfoldable pub transform : Regs → Bytes → Regs
unfolding rounds_from words_le
transform st buffer =
    let r = (rounds_from 16 0 (record { l = words_le 16 0 buffer; regs = st })).regs in
    record {
      a = u32 (st.a + r.a);
      b = u32 (st.b + r.b);
      c = u32 (st.c + r.c);
      d = u32 (st.d + r.d);
      e = u32 (st.e + r.e);
    }

abbrev pub initial : Regs
initial = record { a = 0x67452301; b = 0xefcdab89; c = 0x98badcfe; d = 0x10325476; e = 0xc3d2e1f0 }

-- SHA1Init. The buffer keeps what it held.
unfoldable pub init : Context → Context
init context = record context { state = initial; count0 = 0; count1 = 0 }
