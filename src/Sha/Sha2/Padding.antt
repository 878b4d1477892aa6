-- ===== src/Sha/Sha2/Padding.antt =====
-- generic/sha2.c: SHA256_Final and SHA512_Last transform the message with the mark, zeros and the
-- count behind it, in one block or in two.
use e2factory.Common.{
  ℕ, suc, ◌+◌, ◌-◌, ◌≤◌, ◌≡◌, refl, ap, ◌∙◌, sym, Option, some, [], ◌∷◌, ◌++◌, Bytes, arith, length,
  length-append, length-take, length-replicate, take, replicate, take_all, append_assoc, leb,
  if◌then◌else◌,
}
use e2factory.Common.Replicate.{take-replicate_all}
use e2factory.Sha.Absorb.{absorb_few}
use e2factory.Sha.Sha2.{Machine, Context, store, clear}
use e2factory.Sha.Sha2.Laws.{IsMachine}
use e2factory.Sha.Sha2.Store.{Begins, Written, store-Written}
use e2factory.Sha.Sha2.Refinement.{compress, used, view, taken, IsContext, store-used}

module _ (m : Machine) (l : IsMachine m) where
  -- How many zeros stand between the mark and the count, behind `u` bytes.
  abbrev pub zeros : ℕ → ℕ
  zeros u = if leb (u + 1) m.short then m.short - (u + 1) else m.block - (u + 1) + m.short

  -- The mark and the zeros.
  abbrev pub padding : ℕ → Bytes
  padding u = 0x80 ∷ replicate (zeros u) 0

  -- A context that lacks the count only, for `c` with these bytes behind its message.
  pub record Padded (c : Context m) (more : Bytes) (r : Option (Context m)) : Type 0 where
    pub next : Context m
    pub front : Bytes
    pub returns : r ≡ some next
    pub begins : Begins m next front
    pub complete : length front ≡ m.short
    pub absorbs : record { state = next.state; waiting = front } ≡ taken m (view m c) more

  unfoldable pub waiting : Context m → Bytes
  waiting c = take (used m c) c.buffer

  pub length-waiting : (c : Context m) → IsContext m l c → length (waiting c) ≡ used m c
  unfolding waiting
  length-waiting c valid =
      omega (arith, valid.sized, l.waits-lt c.bitcount, length-take (used m c) c.buffer)

  -- In one block.
  pub short-Padded :
      (c next : Context m) (z : ℕ) (r : Option (Context m))
      → IsContext m l c
      → used m c + 1 + z ≡ m.short
      → r ≡ some next
      → next.state ≡ c.state
      → Begins m next (waiting c ++ 0x80 ∷ replicate z 0)
      → Padded c (0x80 ∷ replicate z 0) r
  unfolding waiting
  short-Padded c next z r valid fits returns same begins = record {
    next = next;
    front = waiting c ++ 0x80 ∷ replicate z 0;
    returns = returns;
    begins = begins;
    complete = omega (arith, sizes, length-waiting c valid, length-replicate {A = ℕ} z 0);
    absorbs =
        ap (λ st. record { state = st; waiting = waiting c ++ 0x80 ∷ replicate z 0 }) same
        ∙ sym (
            absorb_few (compress m) m.block c.state (waiting c) (0x80 ∷ replicate z 0)
              (omega (arith, length-waiting c valid, length-replicate {A = ℕ} z 0, l.short-lt)));
  }
    where
      sizes :
          length (waiting c ++ 0x80 ∷ replicate z 0)
          ≡ length (waiting c) + suc (length (replicate {A = ℕ} z 0))
      sizes = length-append (waiting c) (0x80 ∷ replicate z 0)

  Begins-all :
      (c : Context m) (front bytes : Bytes) (n : ℕ)
      → Begins m c (front ++ take n bytes)
      → take n bytes ≡ bytes
      → Begins m c (front ++ bytes)
  Begins-all c front bytes n b e = rw e at b

  -- Nothing waits.
  pub idle-Padded :
      (c : Context m)
      → IsContext m l c
      → used m c ≡ 0
      → Padded c
          (0x80 ∷ replicate (m.short - 1) 0)
          (store m c 0 (0x80 ∷ replicate (m.short - 1) 0) m.short)
  unfolding waiting
  idle-Padded c valid idle =
      short-Padded c (record c { buffer = w.content }) (m.short - 1) _ valid
        (omega (arith, l.short_pos)) w.returns refl
        (record { sized = w.begins.sized; starts = starts })
    where
      front : Bytes
      front = 0x80 ∷ replicate (m.short - 1) 0

      size : length front ≡ m.short
      size = omega (arith, l.short_pos, length-replicate {A = ℕ} (m.short - 1) 0)

      w : Written m c ([] ++ take m.short front) (store m c 0 front m.short)
      w =
          store-Written m c [] front 0 m.short (record { sized = valid.sized; starts = refl }) refl
            (omega (arith, l.short-lt)) (omega (arith, size))

      same : take (used m c) c.buffer ++ front ≡ take m.short front
      same =
          ap (λ k. take k c.buffer ++ front) idle
          ∙ sym (take_all m.short front (omega (arith, size)))

      starts :
          take (length (take (used m c) c.buffer ++ front)) w.content
          ≡ take (used m c) c.buffer ++ front
      starts = ap (λ v. take (length v) w.content) same ∙ w.begins.starts ∙ sym same

  -- The mark behind the bytes that wait.
  pub mark-Written :
      (c : Context m)
      → IsContext m l c
      → Written m c (waiting c ++ 0x80 ∷ []) (store m c (used m c) (0x80 ∷ []) 1)
  unfolding waiting
  mark-Written c valid =
      store-used m l c (0x80 ∷ []) 1 valid (omega (arith, l.waits-lt c.bitcount)) (omega arith)

  -- Zeros behind the mark.
  pub zeros-Written :
      (c marked : Context m) (n : ℕ)
      → IsContext m l c
      → Begins m marked (waiting c ++ 0x80 ∷ [])
      → used m c + 1 + n ≤ m.block
      → Written m marked (waiting c ++ 0x80 ∷ replicate n 0) (clear m marked (used m c + 1) n)
  zeros-Written c marked n valid b room = rw same at (
      store-Written m marked (waiting c ++ 0x80 ∷ []) (replicate n 0) (used m c + 1) n b
        (omega (arith, length-append (waiting c) (0x80 ∷ []), length-waiting c valid)) room
        (omega (arith, length-replicate {A = ℕ} n 0)))
    where
      same : (waiting c ++ 0x80 ∷ []) ++ take n (replicate n 0) ≡ waiting c ++ 0x80 ∷ replicate n 0
      same =
          ap (λ w. (waiting c ++ 0x80 ∷ []) ++ w) (take-replicate_all n)
          ∙ append_assoc (waiting c) (0x80 ∷ []) (replicate n 0)
