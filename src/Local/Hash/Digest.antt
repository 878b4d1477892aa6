-- ===== src/Local/Hash/Digest.antt =====
-- local/hash.lua over generic/lsha.c: the checksum of what was appended, and a context that is used
-- behind `hash_finish`.
use e2factory.Common.{
  ℕ, ◌+◌, ◌^◌, ◌<◌, ◌≡◌, refl, sym, ap, ◌∙◌, inl, inr, none, some, List, [], ◌∷◌, ◌++◌, Bytes,
  length, leb, length-append, append_assoc, append-nil, arith, Bool-cases,
}
use e2factory.Sha.Sha1.{Context, init}
use e2factory.Sha.Sha1.Final.{hex_of}
use e2factory.Sha.Sha1.Final.Digest.{Holds, init-Holds, update-Holds, sha1}
use e2factory.Sha.Lsha.{Reply, done, lsha1_init, lsha1_update}
use e2factory.Sha.Lsha.Runs.{lsha1_update-fits, lsha1_final-sha1}
use e2factory.Local.Hash.{HashContext, ◌>>=◌, hash_start, hash_append, hash_line, hash_finish}

-- A call of `hash_append` or of `hash_line`.
pub data Call : Type 0 where
  append line : Bytes → Call

-- What a call adds to the text.
abbrev pub text_of : Call → Bytes
text_of (append text) = text
text_of (line text) = text ++ b'\n' ∷ []

abbrev pub texts : List Call → Bytes
texts [] = []
texts (c ∷ cs) = text_of c ++ texts cs

-- Every text stays below 4 GiB with the 64 KB that may wait in front of it.
abbrev pub AllSmall : List Call → Type 0
AllSmall [] = Unit
AllSmall (c ∷ cs) = (length (text_of c) + 65536 + 128 < 2 ^ 32) × AllSmall cs

-- A context to which `m` was appended: some of it is hashed, the rest waits.
pub record Gathers (hc : HashContext) (m : Bytes) : Type 0 where
  pub hashed : Bytes
  pub waiting : Bytes
  pub ctx : Context
  pub state : hc ≡ record { text = some waiting; ctx = some ctx }
  pub holds : Holds ctx hashed
  pub whole : hashed ++ waiting ≡ m
  pub short : length waiting < 65536

module _ (argerror : ℕ → Bytes) (assertion : Bytes) where
  abbrev pub call : HashContext → Call → Reply HashContext
  call hc (append text) = hash_append argerror assertion hc text
  call hc (line text) = hash_line argerror assertion hc text

  abbrev pub calls : HashContext → List Call → Reply HashContext
  calls hc [] = done hc
  calls hc (c ∷ cs) = call hc c >>= λ next. calls next cs

  abbrev pub checksum : HashContext → List Call → Reply (Bytes × HashContext)
  checksum hc cs = calls hc cs >>= hash_finish argerror assertion

  -- `hash_finish` and a full buffer hand the waiting text to `lsha1_update`.
  flushes :
      (c : Context) (m text : Bytes)
      → Holds c m
      → length text + 128 < 2 ^ 32
      → (next : Context) × (lsha1_update argerror (some c) (some text) ≡ done next)
        × Holds next (m ++ text)
  flushes c m text h small =
      let (next, returns, holds) = update-Holds c m text h small in
      (next, lsha1_update-fits argerror c next text small returns, holds)

  hash_append-Gathers :
      (hc : HashContext) (m text : Bytes)
      → Gathers hc m
      → length text + 65536 + 128 < 2 ^ 32
      → (next : HashContext) × (hash_append argerror assertion hc text ≡ done next)
        × Gathers next (m ++ text)
  unfolding hash_append
  hash_append-Gathers hc m text g small =
      let all = g.waiting ++ text in
      let whole : g.hashed ++ all ≡ m ++ text =
        sym (append_assoc g.hashed g.waiting text) ∙ ap (λ w. w ++ text) g.whole in
      elim (Bool-cases (leb 65536 (length all))) [
        | inl full ↦
            let (next, returns, holds) =
              flushes g.ctx g.hashed all g.holds
                (omega (arith, length-append g.waiting text, g.short)) in
            (
              record { text = some []; ctx = some next },
              rw (g.state, full, returns) refl,
              record {
                hashed = g.hashed ++ all;
                waiting = [];
                ctx = next;
                state = refl;
                holds = holds;
                whole = rw append-nil whole;
                short = omega arith;
              },
            )
        | inr room ↦ (
          record { text = some all; ctx = some g.ctx },
          rw (g.state, room) refl,
          record {
            hashed = g.hashed;
            waiting = all;
            ctx = g.ctx;
            state = refl;
            holds = g.holds;
            whole = whole;
            short = ground (arith, room);
          },
        )
      ]

  call-Gathers :
      (c : Call) (hc : HashContext) (m : Bytes)
      → Gathers hc m
      → length (text_of c) + 65536 + 128 < 2 ^ 32
      → (next : HashContext) × (call hc c ≡ done next) × Gathers next (m ++ text_of c)
  unfolding hash_line
  call-Gathers (append text) hc m g small = hash_append-Gathers hc m text g small
  call-Gathers (line text) hc m g small = hash_append-Gathers hc m (text ++ b'\n' ∷ []) g small

  calls-Gathers :
      (cs : List Call) (hc : HashContext) (m : Bytes)
      → Gathers hc m
      → AllSmall cs
      → (last : HashContext) × (calls hc cs ≡ done last) × Gathers last (m ++ texts cs)
  calls-Gathers [] hc m g fit = (hc, refl, rw append-nil g)
  calls-Gathers (c ∷ cs) hc m g (small, fit) =
      let (next, returns, gathers) = call-Gathers c hc m g small in
      let (last, ends, all) = calls-Gathers cs next (m ++ text_of c) gathers fit in
      (last, rw returns ends, rw append_assoc at all)

  hash_finish-sha1 :
      (hc : HashContext) (m : Bytes)
      → Gathers hc m
      → hash_finish argerror assertion hc
        ≡ done (hex_of (sha1 m), record { text = none; ctx = none })
  unfolding hash_finish
  hash_finish-sha1 hc m g =
      let (next, returns, holds) =
        flushes g.ctx g.hashed g.waiting g.holds (omega (arith, g.short)) in
      rw (g.state, returns, lsha1_final-sha1 argerror next _ holds, g.whole) refl

  -- Whatever the memory of a new context held in its buffer of 64 bytes, the checksum behind any
  -- sequence of calls of hash_append and hash_line is the SHA-1, over the functions on words of the
  -- source, of all that they appended, however the texts pile up to 64 KB; and hash_finish takes
  -- the context away. Each text is 65664 bytes below 4 GiB at least.
  pub checksum-sha1 :
      (memory : Context) (cs : List Call)
      → length memory.buffer ≡ 64
      → AllSmall cs
      → checksum (hash_start memory) cs
        ≡ done (hex_of (sha1 (texts cs)), record { text = none; ctx = none })
  unfolding hash_start lsha1_init
  checksum-sha1 memory cs sized fit =
      let new : Gathers (hash_start memory) [] = record {
        hashed = [];
        waiting = [];
        ctx = init memory;
        state = refl;
        holds = init-Holds memory sized;
        whole = refl;
        short = omega arith;
      } in
      let (last, returns, gathers) = calls-Gathers cs (hash_start memory) [] new fit in
      rw returns (hash_finish-sha1 last (texts cs) gathers)
