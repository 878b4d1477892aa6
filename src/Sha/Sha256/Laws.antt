-- ===== src/Sha/Sha256/Laws.antt =====
-- generic/sha2.c: what SHA-256 puts into the streaming has the laws that the streaming needs.
use e2factory.Common.{◌%◌, ◌^◌, ◌<◌, ◌≡◌, refl, arith, Bytes, length}
use e2factory.Sha.ByteOrder.{be64}
use e2factory.Sha.ByteOrder.Wide.{le64-reverse64}
use e2factory.Sha.Sha2.Laws.{IsMachine}
use e2factory.Sha.Sha2.Rounds.{Regs}
use e2factory.Sha.Sha2.Rounds.Range.{length-transform}
use e2factory.Sha.Sha256.{machine256, words256, transform256}

-- The transform leaves 64 bytes in the buffer.
pub length-transform256 : (st : Regs) (bytes : Bytes) → length (transform256 st bytes).1 ≡ 64
unfolding transform256
length-transform256 = length-transform words256 4 (λ w. refl)

abbrev pub machine256-IsMachine : IsMachine machine256
machine256-IsMachine = record {
  IsCount = λ c. c < 2 ^ 64;
  value = λ c. c;
  wrap = λ n. n % 2 ^ 64;
  value_wraps = λ c small. omega arith;
  wrap_add = λ a b. omega arith;
  add-IsCount = λ c n small. omega arith;
  value-add = λ c n small few. refl;
  waits-lt = λ c. omega arith;
  waits-add = λ c n small few. omega arith;
  waits-full = λ c n small full. omega arith;
  waits_wrap = λ c n small same. omega arith;
  count_text = be64;
  count_bytes-text = λ c small. le64-reverse64 c small;
  length_transform = length-transform256;
  length_count = λ c. refl;
  short_pos = omega arith;
  short-lt = omega arith;
  short-le-cleared = omega arith;
  cleared-le = omega arith;
}
