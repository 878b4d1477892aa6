-- ===== src/Sha/Sha2/Refinement.antt =====
-- generic/sha2.c: an update absorbs its input byte by byte, whatever the pieces.
use e2factory.Common.{
  ℕ, ◌+◌, ◌*◌, ◌≤◌, ◌<◌, ◌≡◌, refl, ap, ap₂, ◌∙◌, sym, Option, some, [], ◌∷◌, ◌++◌, Bytes, arith,
  length, length-append, length-take, length-drop, take, drop, take-append-drop, take_all,
}
use e2factory.Sha.Absorb.{Absorbed, absorb, absorb-append, absorb_few, absorb_full}
use e2factory.Sha.Sha2.{Machine, Context, run, count, store, keep}
use e2factory.Sha.Sha2.Laws.{IsMachine}
use e2factory.Sha.Sha2.Store.{Written, store-Written}

module _ (m : Machine) where
  -- What the transform makes of a state.
  abbrev pub compress : m.State → Bytes → m.State
  compress st bytes = (m.transform st bytes).0

  -- How many bytes of the buffer wait.
  abbrev pub used : Context m → ℕ
  used c = m.waits c.bitcount

  abbrev pub view : Context m → Absorbed m.State
  view c = record { state = c.state; waiting = take (used c) c.buffer }

  abbrev pub taken : Absorbed m.State → Bytes → Absorbed m.State
  taken = absorb compress m.block

module _ (m : Machine) (l : IsMachine m) where
  pub record IsContext (c : Context m) : Type 0 where
    pub counted : l.IsCount c.bitcount
    pub sized : length c.buffer ≡ m.block

  -- What an update leaves of a context and its input.
  pub record Updated (c : Context m) (input : Bytes) (r : Option (Context m)) : Type 0 where
    pub next : Context m
    pub returns : r ≡ some next
    pub is_context : IsContext next
    pub absorbs : view m next ≡ taken m (view m c) input
    pub counts : l.value next.bitcount ≡ l.wrap (l.value c.bitcount + 8 * length input)

  pub used-lt : (c : Context m) → used m c < m.block
  used-lt c = l.waits-lt c.bitcount

  -- Bytes behind those that wait.
  pub store-used :
      (c : Context m) (input : Bytes) (n : ℕ)
      → IsContext c
      → used m c + n ≤ m.block
      → n ≤ length input
      → Written m c (take (used m c) c.buffer ++ take n input) (store m c (used m c) input n)
  store-used c input n valid room enough =
      store-Written m c (take (used m c) c.buffer) input (used m c) n
        (record { sized = valid.sized; starts = ap (λ k. take k c.buffer) here }) here room enough
    where
      here : length (take (used m c) c.buffer) ≡ used m c
      here = omega (arith, valid.sized, used-lt c, length-take (used m c) c.buffer)

  pub keep-Updated :
      (c : Context m) (input : Bytes)
      → IsContext c
      → used m c + length input < m.block
      → Updated c input (keep m c (used m c) input (length input))
  keep-Updated c input valid few =
      rw (keep, w.returns)
        (record {
          next = count m (record c { buffer = w.content }) (length input);
          returns = refl;
          is_context = record {
            counted = l.add-IsCount c.bitcount (length input) valid.counted;
            sized = w.begins.sized;
          };
          absorbs =
              ap (λ v. record { state = c.state; waiting = v }) waiting
              ∙ sym (
                  absorb_few (compress m) m.block c.state (take (used m c) c.buffer) input
                    (omega (arith, length-take (used m c) c.buffer)));
          counts = l.value-add c.bitcount (length input) valid.counted (omega arith);
        })
    where
      w :
          Written m c
            (take (used m c) c.buffer ++ take (length input) input)
            (store m c (used m c) input (length input))
      w = store-used c input (length input) valid (omega arith) (omega arith)

      all : take (length input) input ≡ input
      all = take_all (length input) input (omega arith)

      sizes :
          length (take (used m c) c.buffer ++ take (length input) input)
          ≡ m.waits (m.add c.bitcount (length input))
      sizes = omega (
        arith,
        length-append (take (used m c) c.buffer) (take (length input) input),
        length-take (used m c) c.buffer,
        length-take (length input) input,
        used-lt c,
        valid.sized,
        l.waits-add c.bitcount (length input) valid.counted few,
      )

      waiting :
          take (m.waits (m.add c.bitcount (length input))) w.content
          ≡ take (used m c) c.buffer ++ input
      waiting =
          ap (λ k. take k w.content) (sym sizes)
          ∙ w.begins.starts
          ∙ ap (λ v. take (used m c) c.buffer ++ v) all

  -- The bytes that wait and `n` more are transformed as one block, and counted.
  pub block-absorbs :
      (c next : Context m) (bytes rest : Bytes) (n : ℕ)
      → IsContext c
      → used m c + n ≡ m.block
      → 0 < n
      → length rest ≡ n
      → bytes ≡ take (used m c) c.buffer ++ rest
      → next ≡ run m (count m c n) bytes
      → view m next ≡ taken m (view m c) rest
  block-absorbs c next bytes rest n valid full more same whole e =
      ap (view m) e
      ∙ ap₂ (λ (st : m.State) (w : Bytes). record { state = st; waiting = w })
          (ap (compress m c.state) whole)
          (ap (λ k. take k (m.transform c.state bytes).1)
            (l.waits-full c.bitcount n valid.counted full))
      ∙ sym (
          absorb_full (compress m) m.block c.state (take (used m c) c.buffer) rest
            (omega (arith, length-take (used m c) c.buffer, valid.sized))
            (omega (arith, length-take (used m c) c.buffer, valid.sized)))

  -- After some bytes that were absorbed, the rest.
  pub then-Updated :
      (c next : Context m) (input : Bytes) (k : ℕ) (r : Option (Context m))
      → k ≤ length input
      → view m next ≡ taken m (view m c) (take k input)
      → l.value next.bitcount ≡ l.wrap (l.value c.bitcount + 8 * k)
      → Updated next (drop k input) r
      → Updated c input r
  then-Updated c next input k r within first counted u = record {
    next = u.next;
    returns = u.returns;
    is_context = u.is_context;
    absorbs =
        u.absorbs
        ∙ ap (λ v. taken m v (drop k input)) first
        ∙ sym (absorb-append (compress m) m.block (view m c) (take k input) (drop k input))
        ∙ ap (taken m (view m c)) (take-append-drop k input);
    counts =
        u.counts
        ∙ ap (λ v. l.wrap (v + 8 * length (drop k input))) counted
        ∙ l.wrap_add (l.value c.bitcount + 8 * k) (8 * length (drop k input))
        ∙ ap l.wrap (omega (arith, length-drop k input));
  }

  pub nothing-Updated :
      (c : Context m) (input : Bytes) → IsContext c → length input ≡ 0 → Updated c input (some c)
  unfolding absorb
  nothing-Updated c [] valid e = record {
    next = c;
    returns = refl;
    is_context = valid;
    absorbs = refl;
    counts = l.value_wraps c.bitcount valid.counted ∙ ap l.wrap (omega arith);
  }
  nothing-Updated c (x ∷ xs) valid e = absurd (omega arith)

  pub run-IsContext :
      (c : Context m) (n : ℕ) (bytes : Bytes) → IsContext c → IsContext (run m (count m c n) bytes)
  run-IsContext c n bytes valid = record {
    counted = l.add-IsCount c.bitcount n valid.counted;
    sized = l.length_transform c.state bytes;
  }
