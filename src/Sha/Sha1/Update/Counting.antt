-- ===== src/Sha/Sha1/Update/Counting.antt =====
-- generic/sha1.c, SHA1Update: the two 32-bit counters are one counter of 64 bits, and its low
-- bits give the fill of the buffer.
use e2factory.Common.{ℕ, ◌+◌, ◌*◌, ◌/◌, ◌%◌, ◌^◌, ◌<◌, ◌≡◌, arith}
use e2factory.Sha.Sha1.Update.{count_low, count_high}

-- For counters and a length below 2 ^ 32, adding 8 * len bits with the carry by comparison is
-- addition modulo 2 ^ 64.
pub count-add :
    (count0 count1 len : ℕ)
    → count0 < 2 ^ 32
    → count1 < 2 ^ 32
    → len < 2 ^ 32
    → count_low count0 len + 2 ^ 32 * count_high count0 count1 len
      ≡ (count0 + 2 ^ 32 * count1 + 8 * len) % 2 ^ 64
unfolding count_low count_high
count-add count0 count1 len h k l = ground arith

pub used-add :
    (count0 len : ℕ)
    → count0 < 2 ^ 32
    → count_low count0 len / 8 % 64 ≡ (count0 / 8 % 64 + len) % 64
unfolding count_low
used-add count0 len h = omega arith
