-- ===== src/Sha/Sha1/Update/Refinement.antt =====
-- generic/sha1.c, SHA1Update: a context stands for the state and the waiting bytes of a message,
-- and an update absorbs its input.
use e2factory.Common.{
  ℕ, ◌+◌, ◌-◌, ◌*◌, ◌/◌, ◌%◌, ◌^◌, ◌≤◌, ◌<◌, ◌≡◌, refl, sym, ap, ◌∙◌, Option, some, [], ◌++◌, Bytes,
  arith, length, take, drop, ltb, Bool-cases, inl, inr, length-take, length-drop, take-append-drop,
  take-splice, take_all,
}
use e2factory.Common.Bits.{bit_and_63}
use e2factory.Sha.Words.{u32}
use e2factory.Sha.Absorb.{Absorbed, absorb, absorb-append, absorb_few, absorb_full}
use e2factory.Sha.Sha1.{Regs, Context, transform}
use e2factory.Sha.Sha1.Update.{update, blocks_from, keep_rest, fill_and_go, count_low, count_high}
use e2factory.Sha.Sha1.Update.Loop.{
  memcpy-fits, length-memcpy, absorb_64, Looped, blocks_from-Looped,
}
use e2factory.Sha.Sha1.Update.Counting.{count-add, used-add}

-- The counters and the buffer have the sizes of their C types.
pub record IsContext (c : Context) : Type 0 where
  pub low : c.count0 < 2 ^ 32
  pub high : c.count1 < 2 ^ 32
  pub sized : length c.buffer ≡ 64

-- How many bytes of the buffer wait.
abbrev pub used : Context → ℕ
used c = c.count0 / 8 % 64

-- The context without what the buffer held before.
abbrev pub view : Context → Absorbed Regs
view c = record { state = c.state; waiting = take (used c) c.buffer }

-- The 64-bit counter of bits.
abbrev pub bits : Context → ℕ
bits c = c.count0 + 2 ^ 32 * c.count1

-- What `update` leaves of a context and its input.
pub record Updated (c : Context) (input : Bytes) (r : Option Context) : Type 0 where
  pub next : Context
  pub returns : r ≡ some next
  pub is_context : IsContext next
  pub absorbs : view next ≡ absorb transform 64 (view c) input
  pub counts : bits next ≡ (bits c + 8 * length input) % 2 ^ 64

-- The counters after `input`, with any state and buffer.
abbrev counted : Context → ℕ → Context
counted c len = record c {
  count0 = count_low c.count0 len;
  count1 = count_high c.count0 c.count1 len;
}

-- The last copy, from the position `i` of the input to the position `j` of the buffer.
module _ (c : Context) (valid : IsContext c) (input : Bytes)
    (small : length input + 128 < 2 ^ 32) where
  count-lt :
      (count_low c.count0 (length input) < 2 ^ 32)
      × (count_high c.count0 c.count1 (length input) < 2 ^ 32)
  unfolding count_low count_high
  count-lt = (omega arith, ground arith)

  keep_rest-Updated :
      (buffer : Bytes) (j i : ℕ) (st : Regs)
      → length buffer ≡ 64
      → i ≤ length input
      → j + (length input - i) < 64
      → (used c + length input) % 64 ≡ j + (length input - i)
      → absorb_64 (view c) input
        ≡ absorb_64 (record { state = st; waiting = take j buffer }) (drop i input)
      → Updated c input (keep_rest (counted c (length input)) buffer j input i (length input) st)
  unfolding keep_rest
  keep_rest-Updated buffer j i st sized within room fill rest =
      rw (memcpy-fits buffer j (drop i input) n (omega arith), keep_rest)
        (record {
          next = after;
          returns = refl;
          is_context = record {
            low = count-lt.0;
            high = count-lt.1;
            sized =
                length-memcpy buffer j (drop i input) n (omega arith) (omega (arith, source))
                ∙ sized;
          };
          absorbs =
              ap (λ w. record { state = st; waiting = w }) waiting
              ∙ sym (
                  rest
                  ∙ absorb_few transform 64 st (take j buffer) (drop i input)
                      (omega (arith, source, length-take j buffer)));
          counts = count-add c.count0 c.count1 (length input) valid.low valid.high (omega arith);
        })
    where
      n : ℕ
      n = length input - i

      source : length (drop i input) ≡ n
      source = length-drop i input

      after : Context
      after = record (counted c (length input)) {
        state = st;
        buffer = take j buffer ++ (take n (drop i input) ++ drop (j + n) buffer);
      }

      used_after : used after ≡ j + n
      used_after = used-add c.count0 (length input) valid.low ∙ fill

      waiting : take (used after) after.buffer ≡ take j buffer ++ drop i input
      waiting =
          ap (λ k. take k after.buffer) used_after
          ∙ take-splice j n buffer (drop i input) (drop (j + n) buffer) (omega arith)
              (omega (arith, source))
          ∙ ap (λ w. take j buffer ++ w) (take_all n (drop i input) (omega (arith, source)))

  fill_and_go-Updated :
      64 ≤ used c + length input
      → Updated c input (fill_and_go (counted c (length input)) (used c) input (length input))
  unfolding fill_and_go
  fill_and_go-Updated full =
      rw (memcpy-fits c.buffer j input k fits, fill_and_go, l.returns)
        (keep_rest-Updated buffer 0 l.at l.out length_buffer l.within (omega (arith, l.few))
          (omega (arith, l.aligned, l.few, l.within)) (filled ∙ l.absorbs))
    where
      j : ℕ
      j = used c

      k : ℕ
      k = 64 - used c

      fits : j + k ≤ length c.buffer
      fits = omega (arith, valid.sized)

      buffer : Bytes
      buffer = take j c.buffer ++ (take k input ++ drop (j + k) c.buffer)

      length_buffer : length buffer ≡ 64
      length_buffer = length-memcpy c.buffer j input k fits (omega arith) ∙ valid.sized

      l :
          Looped input k
            (transform c.state buffer)
            (blocks_from (length input / 64 + 1) (length input) input k (transform c.state buffer))
      l =
          blocks_from-Looped (length input / 64 + 1) input k (transform c.state buffer)
            (omega arith) (omega arith) (omega arith)

      block : 64 ≡ j + k
      block = omega arith

      -- The buffer is exactly what waited and the first bytes of the input.
      whole : buffer ≡ take j c.buffer ++ take k input
      whole =
          sym (take_all 64 buffer (omega (arith, length_buffer)))
          ∙ ap (λ n. take n buffer) block
          ∙ take-splice j k c.buffer input (drop (j + k) c.buffer) (omega (arith, valid.sized))
              (omega arith)

      filled :
          absorb_64 (view c) input
          ≡ absorb_64 (record { state = transform c.state buffer; waiting = [] }) (drop k input)
      filled =
          ap (absorb_64 (view c)) (sym (take-append-drop k input))
          ∙ absorb-append transform 64 (view c) (take k input) (drop k input)
          ∙ ap (λ v. absorb_64 v (drop k input))
              (absorb_full transform 64 c.state (take j c.buffer) (take k input)
                  (omega (arith, valid.sized, length-take j c.buffer))
                  (omega (arith, valid.sized, length-take j c.buffer, length-take k input))
                ∙ ap (λ w. record { state = transform c.state w; waiting = [] }) (sym whole))

-- An update of a context with counters below 2 ^ 32 and a buffer of 64 bytes, with an input of a
-- length that leaves room below 2 ^ 32, writes nothing outside the buffer and ends; the state and
-- the waiting bytes are those of the message so far with the input behind it, whatever the pieces
-- in which the message came, and the counters are the number of its bits modulo 2 ^ 64.
pub update-Updated :
    (c : Context) (input : Bytes)
    → IsContext c
    → length input + 128 < 2 ^ 32
    → Updated c input (update c input (length input))
unfolding update
update-Updated c input valid small =
    rw (bit_and_63 (c.count0 / 8)) (elim (Bool-cases (ltb 63 (u32 (used c + length input)))) [
      | inl full ↦ rw full (fill_and_go-Updated c valid input small (ground arith))
      | inr few ↦ rw few (
          let room : used c + length input < 64 = ground arith in
          keep_rest-Updated c valid input small c.buffer (used c) 0 c.state valid.sized
            (omega arith) (omega arith) (omega arith) refl)
    ])
