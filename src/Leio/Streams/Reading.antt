-- ===== src/Leio/Streams/Reading.antt =====
-- generic/leio.c: `get_read_buf`, and what `eio_fread` makes of its arguments.
use e2factory.Common.{
  ℕ, ◌≤◌, ◌<◌, ◌≡◌, Bool, true, false, not, ◌&&◌, Option, none, some, List, [], ◌∷◌, arith, take,
  to_size, get_elem?, append-nil, ◌==◌, ◌⊎◌, if◌then◌else◌,
}
use e2factory.Lua.{Api, Value, string, boolean, values, outcome, call}
use e2factory.Leio.Libc.{Libc, World}
use e2factory.Leio.ReadBuffer.{get_read_buf, grow}
use e2factory.Leio.Streams.{eio_fread}

module _ (c : Libc) where
  -- No buffer has no size.
  pub record IsSized (w : World c) : Type 0 where
    pub sized : w.buf ≡ none → w.bufsz ≡ 0

  abbrev pub no_buffer : World c → Bool
  no_buffer w = elim w.buf [ none ↦ true | some p ↦ false ]

  -- What `get_read_buf` promises of its answer, from one world to the next.
  abbrev pub Handed : ℕ → World c → World c → Option ℕ → Type 0
  Handed sz before after none = (sz ≡ 0) ⊎ ((c.malloc sz (c.free before.buf before.libc)).0 ≡ none)
  Handed sz before after (some buf) = (after.buf ≡ some buf) × (sz ≤ after.bufsz)

  -- From a world in which no buffer has no size, `get_read_buf` leads to such a world. A buffer
  -- that it hands out is the one that is kept, and has room for what was asked for; it hands out
  -- none only if nothing was asked for or `malloc` failed.
  pub get_read_buf-IsSized :
      (sz : ℕ) (w : World c)
      → IsSized w
      → let r = get_read_buf c sz w in IsSized r.1 × Handed sz w r.1 r.0
  unfolding get_read_buf grow
  get_read_buf-IsSized sz w v = (ground arith, ground arith)

module _ (api : Api) (c : Libc) (args : List Value) (w : World c) where
  -- With a handle, a size and a buffer, the caller gets all bytes that `fread` read, be they
  -- fewer than asked for, or none at the end of the file; only a short read on a stream with its
  -- error set is reported as a failure instead, with the reason.
  pub eio_fread-lossless :
      (f buf sz : ℕ)
      → api.touserdata (get_elem? args 0) ≡ some f
      → to_size (api.tointeger (get_elem? args 1)) ≡ sz
      → 0 < sz
      → (get_read_buf c sz w).0 ≡ some buf
      → let r = c.fread buf sz f (get_read_buf c sz w).1.libc in
        outcome (call (eio_fread api c) args w) ≡ (
          if not (r.0.0 == sz) && c.ferror f r.1
          then values (boolean false ∷ string (c.strerror (c.errno r.1)) ∷ [])
          else values (string (take r.0.0 r.0.1) ∷ []))
  unfolding eio_fread
  eio_fread-lossless f buf sz handle size some_bytes room = ground (arith, append-nil args)
