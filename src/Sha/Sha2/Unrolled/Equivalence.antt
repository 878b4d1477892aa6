-- ===== src/Sha/Sha2/Unrolled/Equivalence.antt =====
-- generic/sha2.c: the transforms with and without SHA2_UNROLL_TRANSFORM are the same function.
use e2factory.Common.{
  ℕ, zero, suc, ◌+◌, ◌*◌, ◌≡◌, refl, ap, ◌∙◌, sym, bit_and, List, Bytes, set, replicate, arith,
  get_or,
}
use e2factory.Sha.Sha2.Rounds.{
  Regs, Words, maj, round, rounds_in, rounds_on, expand, add, emit, transform,
}
use e2factory.Sha.Sha256.{words256, transform256}
use e2factory.Sha.Sha512.{words512, transform512}
use e2factory.Sha.Sha2.Unrolled.{
  turn, back, turned, turned_back, Locals, renamed, eight, passes, in_place, round_0_to_15,
  round_later, unrolled, unrolled256, unrolled512,
}

-- A step of a loop in turn.
steps : ℕ → (Locals → Locals) → Locals → Locals
steps zero f v = v
steps (suc n) f v = steps n f (f v)

steps_add :
    (m n : ℕ) (f : Locals → Locals) (v : Locals) → steps n f (steps m f v) ≡ steps (m + n) f v
unfolding steps
steps_add zero n f v = let same : n ≡ zero + n = omega arith in ap (λ k. steps k f v) same
steps_add (suc m) n f v =
    let one_more : suc (m + n) ≡ suc m + n = omega arith in
    steps_add m n f (f v) ∙ ap (λ k. steps k f v) one_more

turned-turned_back : (n : ℕ) (r : Regs) → turned n (turned_back n r) ≡ r
turned-turned_back zero r = refl
turned-turned_back (suc n) r = ap turn (turned-turned_back n (back r))

-- The registers under the names of call `n`.
abbrev rolled : ℕ → Locals → Locals
rolled n v = record v { r = turned n v.r }

-- What a macro does where the registers move on by one.
abbrev moved : (Locals → Locals) → Locals → Locals
moved macro v = let x = macro v in record x { r = turn x.r }

-- The calls from call `k` on.
calls : ℕ → ℕ → (Locals → Locals) → Locals → Locals
calls zero k macro v = v
calls (suc n) k macro v = calls n (k + 1) macro (renamed k macro v)

rolled-renamed :
    (k : ℕ) (macro : Locals → Locals) (v : Locals)
    → rolled (suc k) (renamed k macro v) ≡ moved macro (rolled k v)
rolled-renamed k macro v =
    ap (λ r. record (macro (rolled k v)) { r = turn r })
      (turned-turned_back k (macro (rolled k v)).r)

rolled-calls :
    (n k : ℕ) (macro : Locals → Locals) (v : Locals)
    → rolled (n + k) (calls n k macro v) ≡ steps n (moved macro) (rolled k v)
unfolding calls steps
rolled-calls zero k macro v = let same : zero + k ≡ k = omega arith in ap (λ i. rolled i v) same
rolled-calls (suc n) k macro v =
    let one_more : suc n + k ≡ n + (k + 1) = omega arith in
    let next : k + 1 ≡ suc k = omega arith in
    ap (λ i. rolled i (calls n (k + 1) macro (renamed k macro v))) one_more
    ∙ rolled-calls n (k + 1) macro (renamed k macro v)
    ∙ ap (λ i. steps n (moved macro) (rolled i (renamed k macro v))) next
    ∙ ap (steps n (moved macro)) (rolled-renamed k macro v)

-- After eight calls the names are as before.
eight-steps : (macro : Locals → Locals) (v : Locals) → eight macro v ≡ steps 8 (moved macro) v
unfolding eight calls
eight-steps macro v = rolled-calls 8 0 macro v

passes-steps :
    (n : ℕ) (macro : Locals → Locals) (v : Locals)
    → passes n macro v ≡ steps (8 * n) (moved macro) v
unfolding passes steps
passes-steps zero macro v = refl
passes-steps (suc n) macro v =
    let one_more : 8 + 8 * n ≡ 8 * suc n = omega arith in
    passes-steps n macro (eight macro v)
    ∙ ap (steps (8 * n) (moved macro)) (eight-steps macro v)
    ∙ steps_add 8 (8 * n) (moved macro) v
    ∙ ap (λ k. steps k (moved macro) v) one_more

steps_same :
    (n : ℕ) (f g : Locals → Locals) (v : Locals)
    → ((u : Locals) → f u ≡ g u)
    → steps n f v ≡ steps n g v
unfolding steps
steps_same zero f g v same = refl
steps_same (suc n) f g v same = steps_same n f g (f v) same ∙ ap (steps n g) (same v)

module _ (o : Words) (sums : (a b : ℕ) → o.word (a + o.word b) ≡ o.word (a + b)) where
  round-in_place : (j w : ℕ) (r : Regs) → round o j w r ≡ turn (in_place o j w r)
  unfolding round in_place
  round-in_place j w r =
      let t1 = o.word (r.h + o.big_sigma1 r.e + o.ch r.e r.f r.g + get_or o.constants j 0 + w) in
      let grouped : t1 + (o.big_sigma0 r.a + maj r.a r.b r.c)
          ≡ t1 + o.big_sigma0 r.a + maj r.a r.b r.c =
        omega arith in
      ap
        (λ x. record {
          a = x;
          b = r.a;
          c = r.b;
          d = r.c;
          e = o.word (r.d + t1);
          f = r.e;
          g = r.f;
          h = r.g;
        })
        (sums t1 (o.big_sigma0 r.a + maj r.a r.b r.c) ∙ ap o.word grouped)

  -- The bodies of the two loops.
  abbrev body_in : Bytes → Locals → Locals
  body_in block v =
      let word = o.load block v.j in
      record { j = v.j + 1; w = set v.w v.j word; r = round o v.j word v.r }

  abbrev body_on : Locals → Locals
  body_on v =
      let word = expand o v.j v.w in
      record { j = v.j + 1; w = set v.w (bit_and v.j 0x0f) word; r = round o v.j word v.r }

  rounds_in-steps :
      (left : ℕ) (block : Bytes) (v : Locals)
      → rounds_in o left v.j block v.w v.r
        ≡ ((steps left (body_in block) v).w, (steps left (body_in block) v).r)
  unfolding rounds_in steps
  rounds_in-steps zero block v = refl
  rounds_in-steps (suc left) block v = rounds_in-steps left block (body_in block v)

  rounds_on-steps :
      (left : ℕ) (v : Locals)
      → rounds_on o left v.j v.w v.r ≡ ((steps left body_on v).w, (steps left body_on v).r)
  unfolding rounds_on steps
  rounds_on-steps zero v = refl
  rounds_on-steps (suc left) v = rounds_on-steps left (body_on v)

  passes_in :
      (n : ℕ) (block : Bytes) (v : Locals)
      → steps (8 * n) (body_in block) v ≡ passes n (round_0_to_15 o block) v
  unfolding round_0_to_15
  passes_in n block v =
      steps_same (8 * n) _ (moved (round_0_to_15 o block)) v (λ u.
        ap (λ r. record { j = u.j + 1; w = set u.w u.j (o.load block u.j); r = r })
          (round-in_place u.j (o.load block u.j) u.r))
      ∙ sym (passes-steps n (round_0_to_15 o block) v)

  passes_on : (n : ℕ) (v : Locals) → steps (8 * n) body_on v ≡ passes n (round_later o) v
  unfolding round_later
  passes_on n v =
      steps_same (8 * n) _ (moved (round_later o)) v (λ u.
        ap (λ r. record { j = u.j + 1; w = set u.w (bit_and u.j 0x0f) (expand o u.j u.w); r = r })
          (round-in_place u.j (expand o u.j u.w) u.r))
      ∙ sym (passes-steps n (round_later o) v)

  j-steps : (n : ℕ) (block : Bytes) (v : Locals) → (steps n (body_in block) v).j ≡ v.j + n
  unfolding steps
  j-steps zero block v = omega arith
  j-steps (suc n) block v = omega (arith, j-steps n block (body_in block v))

  -- For every number of passes that makes up the later rounds, both forms of the transform agree.
  pub transform-unrolled :
      (laps : ℕ) (state : Regs) (block : Bytes)
      → 8 * laps ≡ o.later
      → unrolled o laps state block ≡ transform o state block
  unfolding unrolled transform
  transform-unrolled laps state block rounds =
      ap (finish) (sym (passes_on laps (passes 2 (round_0_to_15 o block) start)))
      ∙ ap (λ v. finish (steps (8 * laps) body_on v)) (sym (passes_in 2 block start))
      ∙ ap (λ n. finish (steps n body_on first)) rounds
      ∙ ap (emitted) (
          sym (rounds_on-steps o.later first)
          ∙ ap (λ j. rounds_on o o.later j first.w first.r) (j-steps 16 block start))
      ∙ ap (λ v. emitted (rounds_on o o.later 16 v.0 v.1)) (sym (rounds_in-steps 16 block start))
    where
      start : Locals
      start = record { j = 0; w = replicate 16 0; r = state }

      first : Locals
      first = steps 16 (body_in block) start

      finish : Locals → Regs × Bytes
      finish v = (add o state v.r, emit o.bytes v.w)

      emitted : List ℕ × Regs → Regs × Bytes
      emitted v = (add o state v.1, emit o.bytes v.0)

-- SHA256_Transform with and without SHA2_UNROLL_TRANSFORM is the same function.
pub unrolled256-transform256 :
    (state : Regs) (block : Bytes) → unrolled256 state block ≡ transform256 state block
unfolding unrolled256 transform256
unrolled256-transform256 state block =
    transform-unrolled words256 (λ a b. omega arith) 6 state block refl

-- SHA512_Transform with and without SHA2_UNROLL_TRANSFORM is the same function.
pub unrolled512-transform512 :
    (state : Regs) (block : Bytes) → unrolled512 state block ≡ transform512 state block
unfolding unrolled512 transform512
unrolled512-transform512 state block =
    transform-unrolled words512 (λ a b. omega arith) 8 state block refl
