-- ===== src/Sha/Lsha/Long.antt =====
-- generic/lsha.c: the three SHA-256 functions for Lua.
pub mod Runs
use e2factory.Common.{ℕ, Option, Bytes, length}
use e2factory.Sha.Sha256.{Context256, init}
use e2factory.Sha.Sha256.Stream.{update256, end256}
use e2factory.Sha.Lsha.{Reply, done, or_fault, or_argerror}

-- The context is set up in fresh memory.
unfoldable pub lsha256_init : Context256 → Context256
lsha256_init memory = init memory

module _ (argerror : ℕ → Bytes) where
  unfoldable pub lsha256_update : Option Context256 → Option Bytes → Reply Context256
  lsha256_update ctx text =
      or_argerror argerror 1 ctx
        λ c. or_argerror argerror 2 text λ input. or_fault (update256 c input (length input)) done

  -- The digest in hexadecimal, and the context as it is left.
  unfoldable pub lsha256_final : Option Context256 → Reply (Bytes × Context256)
  lsha256_final ctx = or_argerror argerror 1 ctx λ c. or_fault (end256 c) done
