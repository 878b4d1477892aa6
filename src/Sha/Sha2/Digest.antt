-- ===== src/Sha/Sha2/Digest.antt =====
-- generic/sha2.c: whole runs, against the padding rule of FIPS 180: the message, a bit 1, zeros,
-- and the number of its bits.
use e2factory.Common.{
  ◌+◌, ◌*◌, ◌%◌, ◌≡◌, ap, ap₂, ◌∙◌, sym, some, [], ◌++◌, Bytes, arith, length, length-append,
}
use e2factory.Sha.Absorb.{Absorbed, absorb-append}
use e2factory.Sha.Sha2.{Machine, Context, update, last}
use e2factory.Sha.Sha2.Laws.{IsMachine}
use e2factory.Sha.Sha2.Refinement.{view, taken, IsContext}
use e2factory.Sha.Sha2.Blocks.{update-Updated}
use e2factory.Sha.Sha2.Padding.{padding}
use e2factory.Sha.Sha2.Last.{last-absorbs}

module _ (m : Machine) (l : IsMachine m) (start : m.State) where
  -- The state of a message.
  abbrev pub hashed : Bytes → Absorbed m.State
  hashed = taken m (record { state = start; waiting = [] })

  -- The context stands for a message.
  pub record Holds (c : Context m) (msg : Bytes) : Type 0 where
    pub valid : IsContext m l c
    pub absorbed : view m c ≡ hashed msg
    pub counted : l.value c.bitcount ≡ l.wrap (8 * length msg)

  pub update-Holds :
      (c : Context m) (msg input : Bytes)
      → Holds c msg
      → (next : Context m) × (update m c input (length input) ≡ some next)
        × Holds next (msg ++ input)
  update-Holds c msg input h =
      let u = update-Updated m l c input h.valid in
      (
        u.next,
        u.returns,
        record {
          valid = u.is_context;
          absorbed =
              u.absorbs
              ∙ ap (λ v. taken m v input) h.absorbed
              ∙ sym (
                  absorb-append (λ st bytes. (m.transform st bytes).0) m.block
                    (record { state = start; waiting = [] }) msg input);
          counted =
              u.counts
              ∙ ap (λ v. l.wrap (v + 8 * length input)) h.counted
              ∙ l.wrap_add (8 * length msg) (8 * length input)
              ∙ ap l.wrap (omega (arith, length-append msg input));
        },
      )

  -- The message with its padding, as FIPS 180 has it.
  pub padded : Bytes → Bytes
  padded msg = msg ++ (padding m l (length msg % m.block) ++ l.count_text (l.wrap (8 * length msg)))

  -- The last transforms of a context that stands for a message leave the state of the padded
  -- message.
  pub last-padded :
      (c : Context m) (msg : Bytes)
      → Holds c msg
      → (done : Context m) × (last m c ≡ some done) × (done.state ≡ (hashed (padded msg)).state)
  unfolding padded
  last-padded c msg h =
      let (done, returns, state) = last-absorbs m l c h.valid in
      (
        done,
        returns,
        ap (λ (v : Absorbed m.State). v.state)
            (state
              ∙ ap₂ (λ (v : Absorbed m.State) (w : Bytes). taken m v w) h.absorbed
                  (ap₂ (λ u w. padding m l u ++ w)
                    (l.waits_wrap c.bitcount (length msg) h.valid.counted h.counted)
                    (l.count_bytes-text c.bitcount h.valid.counted ∙ ap l.count_text h.counted))
              ∙ sym (
                  absorb-append (λ st bytes. (m.transform st bytes).0) m.block
                    (record { state = start; waiting = [] }) msg _)),
      )
