-- ===== src/Leio/ReadBuffer.antt =====
-- generic/leio.c: `get_read_buf`, the buffer that grows and is kept between calls.
use e2factory.Common.{ℕ, Option, none, some, ltb, if◌then◌else◌}
use e2factory.Leio.Libc.{Libc, World}

module _ (c : Libc) where
  -- The branch that allocates: free, then `malloc`.
  unfoldable pub grow : ℕ → World c → Option ℕ × World c
  grow sz w =
      let r = c.malloc sz (c.free w.buf w.libc) in
      elim r.0 [
        | none ↦ (none, record w { libc = r.1; buf = none; bufsz = 0 })
        | some p ↦ (some p, record w { libc = r.1; buf = some p; bufsz = sz })
      ]

  unfoldable pub get_read_buf : ℕ → World c → Option ℕ × World c
  get_read_buf sz w = if ltb w.bufsz sz then grow sz w else (w.buf, w)
