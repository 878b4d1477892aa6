-- ===== src/Leio/Libc.antt =====
-- What generic/leio.c calls: libc, as operations on an unknown state. `errno` reads the error
-- number of the last failed call. A FILE is a number, and so is an address.
use e2factory.Common.{ℕ, Bool, Option, Bytes, ℤ}
use e2factory.Lua.{Value}

pub record Libc : Type 1 where
  pub State : Type 0
  pub errno : State → ℕ
  pub strerror : ℕ → Bytes
  pub fopen : Bytes → Bytes → State → Option ℕ × State
  pub fdopen : ℤ → Bytes → State → Option ℕ × State
  pub fclose : ℕ → State → ℤ × State
  pub fflush : Option ℕ → State → ℤ × State
  pub fileno : ℕ → State → ℤ
  pub feof : ℕ → State → Bool
  pub ferror : ℕ → State → Bool
  -- The number of bytes written.
  pub fwrite : Bytes → ℕ → State → ℕ × State
  -- The number of bytes read, and the buffer's content.
  pub fread : ℕ → ℕ → ℕ → State → (ℕ × Bytes) × State
  -- The character, or a negative number for EOF.
  pub fgetc : ℕ → State → ℤ × State
  pub setlinebuf : ℕ → State → State
  pub setbuf_null : ℕ → State → State
  pub setfd : ℤ → Bool → State → ℤ × State
  pub close : ℤ → State → ℤ × State
  pub write : ℤ → Bytes → State → ℤ × State
  pub read : ℤ → ℕ → ℕ → State → (ℤ × Bytes) × State
  pub pipe : State → (ℤ × ℤ × ℤ) × State
  pub dup : ℤ → State → ℤ × State
  pub dup2 : ℤ → ℤ → State → ℤ × State
  pub malloc : ℕ → State → Option ℕ × State
  pub free : Option ℕ → State → State
  -- What index 0 reads in a call with so many values on Lua's stack: the slot above them, which
  -- holds what earlier calls left there.
  pub above_top : State → ℕ → Option Value

-- The library's state, and the static variables of `get_read_buf`.
pub record World (c : Libc) : Type 0 where
  pub libc : c.State
  pub buf : Option ℕ
  pub bufsz : ℕ

module _ (c : Libc) where
  -- A call of libc.
  abbrev pub libc_call : {A : Type 0} → (c.State → A × c.State) → World c → A × World c
  libc_call f w = let r = f w.libc in (r.0, record w { libc = r.1 })

  abbrev pub strerror_errno : World c → Bytes
  strerror_errno w = c.strerror (c.errno w.libc)
