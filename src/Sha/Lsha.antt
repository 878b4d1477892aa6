-- ===== src/Sha/Lsha.antt =====
-- generic/lsha.c: the functions for Lua, those of SHA-1 here and those of SHA-256 in `Long`. The
-- context lives in a userdata; an argument is `none` where Lua's checks of its type raise an
-- error, with a message of Lua's own.
pub mod Runs
pub mod Long
use e2factory.Common.{
  ℕ, ◌-◌, ◌^◌, Option, none, some, List, [], ◌∷◌, Bytes, ltb, if◌then◌else◌, length, codes, String,
}
use e2factory.Sha.Sha1.{Context, init}
use e2factory.Sha.Sha1.Update.{update}
use e2factory.Sha.Sha1.Final.{final, hex_of}

-- `fault` is what C leaves undefined: a write past the end of the buffer.
pub data Reply (A : Type 0) : Type 0 where
  done : A → Reply A
  error : Bytes → Reply A
  fault : Reply A

-- UINT_MAX of <limits.h>
abbrev pub uint_max : ℕ
uint_max = 2 ^ 32 - 1

abbrev pub or_fault {ℓ} : {A : Type ℓ} {B : Type 0} → Option A → (A → Reply B) → Reply B
or_fault none f = fault
or_fault (some a) f = f a

-- The context is set up in fresh memory.
unfoldable pub lsha1_init : Context → Context
lsha1_init memory = init memory

module _ (argerror : ℕ → Bytes) where
  abbrev pub or_argerror : {A B : Type 0} → ℕ → Option A → (A → Reply B) → Reply B
  or_argerror i none f = error (argerror i)
  or_argerror i (some a) f = f a

  unfoldable pub lsha1_update : Option Context → Option Bytes → Reply Context
  lsha1_update ctx text = or_argerror 1 ctx λ c. or_argerror 2 text λ input.
      if ltb uint_max (length input)
      then error (codes "sha1_update: data exceeds UINT_MAX")
      else or_fault (update c input (length input)) done

  -- The digest in hexadecimal, and the context as it is left.
  unfoldable pub lsha1_final : Option Context → Reply (Bytes × Context)
  lsha1_final ctx = or_argerror 1 ctx λ c. or_fault (final c) λ r. done (hex_of r.0, r.1)
