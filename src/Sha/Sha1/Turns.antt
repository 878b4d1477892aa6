-- ===== src/Sha/Sha1/Turns.antt =====
-- generic/sha1.c: the calls of R0 to R4, whose five arguments take turns, as rounds of one kind.
use e2factory.Common.{ℕ, zero, suc, ◌+◌, ◌*◌, ◌≡◌, refl, ap, ap₂, ◌∙◌, arith}
use e2factory.Sha.Sha1.{Work, rol, expand, mixed, five, rounds_from}

-- A round of the code under the names of the first.
abbrev pub step : ℕ → Work → Work
step i s =
    let l = expand s.l i in
    let r = s.regs in
    record {
      l = l;
      regs = record {
        a = mixed i r.a r.b r.c r.d r.e l;
        b = r.a;
        c = rol r.b 30;
        d = r.c;
        e = r.d;
      };
    }

unfoldable pub steps : ℕ → ℕ → Work → Work
steps zero i s = s
steps (suc n) i s = steps n (i + 1) (step i s)

pub steps_add : (m n i : ℕ) (s : Work) → steps n (i + m) (steps m i s) ≡ steps (m + n) i s
unfolding steps
steps_add zero n i s =
    let none_more : i + zero ≡ i = omega arith in
    let none_less : n ≡ zero + n = omega arith in ap₂ (λ k j. steps k j s) none_less none_more
steps_add (suc m) n i s =
    let more : i + suc m ≡ i + 1 + m = omega arith in
    let less : suc (m + n) ≡ suc m + n = omega arith in
    ap (λ j. steps n j (steps m (i + 1) (step i s))) more
    ∙ steps_add m n (i + 1) (step i s)
    ∙ ap (λ k. steps k i s) less

-- Five calls bring the names back.
five-steps : (i : ℕ) (s : Work) → five i s ≡ steps 5 i s
unfolding five steps
five-steps i s =
    let second : i + 2 ≡ i + 1 + 1 = omega arith in
    let third : i + 3 ≡ i + 1 + 1 + 1 = omega arith in
    let fourth : i + 4 ≡ i + 1 + 1 + 1 + 1 = omega arith in
    ap₂ step fourth (ap₂ step third (ap (λ k. step k (step (i + 1) (step i s))) second))

pub rounds_from-steps : (n i : ℕ) (s : Work) → rounds_from n i s ≡ steps (5 * n) i s
unfolding rounds_from steps
rounds_from-steps zero i s = refl
rounds_from-steps (suc n) i s =
    let whole : 5 + 5 * n ≡ 5 * suc n = omega arith in
    rounds_from-steps n (i + 5) (five i s)
    ∙ ap (steps (5 * n) (i + 5)) (five-steps i s)
    ∙ steps_add 5 (5 * n) i s
    ∙ ap (λ k. steps k i s) whole
