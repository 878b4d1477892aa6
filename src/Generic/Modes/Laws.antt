-- ===== src/Generic/Modes/Laws.antt =====
-- generic/e2lib.lua: the modes that `parse_mode` returns.
use e2factory.Common.{
  ℕ, ◌+◌, ◌-◌, ◌*◌, ◌^◌, ◌≤◌, ◌<◌, ◌≡◌, Option, [], ◌∷◌, Bytes, length, arith, Option-cases, inl,
  inr,
}
use e2factory.Generic.Modes.{
  non_spaces, Parsed, ok, Perms, Classes, Machine, start, run, octal_of, mode_of, digits,
  parse_mode, ◌>>=◌,
}

octal_of-le : (p : Perms) → octal_of p ≤ 7
octal_of-le p = ground arith

mode_of-lt : (perm : Classes Perms) → mode_of perm < 512
mode_of-lt perm =
    omega (arith, octal_of-le perm.user, octal_of-le perm.group, octal_of-le perm.other)

length-non_spaces : (text : Bytes) → length (non_spaces text) ≤ length text
unfolding non_spaces
length-non_spaces [] = omega arith
length-non_spaces (c ∷ text) = ground (arith, length-non_spaces text)

module _ (tonumber : Bytes → Option ℕ) where
  -- One digit.
  digits-cons :
      (index out c n : ℕ) (chars : Bytes)
      → digits tonumber index out (c ∷ chars) ≡ ok n
      → (mode : ℕ) × (mode ≤ 7)
        × (digits tonumber (index + 1) (out + mode * 8 ^ (2 - index)) chars ≡ ok n)
  unfolding digits
  digits-cons index out c n chars h = elim (Option-cases (tonumber (c ∷ []))) [
    | inl nil ↦ absurd (ground (arith, h, nil))
    | inr (mode, number) ↦ (mode, ground (arith, h, number), ground (arith, h, number))
  ]

  digits-nil : (index out n : ℕ) → digits tonumber index out [] ≡ ok n → out ≡ n
  unfolding digits
  digits-nil index out n h = ground (arith, h)

  digits-lt :
      (chars : Bytes) (n : ℕ) → length chars ≤ 3 → digits tonumber 0 0 chars ≡ ok n → n < 512
  digits-lt [] n short h = omega (arith, digits-nil 0 0 n h)
  digits-lt (a ∷ []) n short h =
      let (i, small_i, h1) = digits-cons 0 0 a n [] h in omega (arith, digits-nil _ _ n h1)
  digits-lt (a ∷ b ∷ []) n short h =
      let (i, small_i, h1) = digits-cons 0 0 a n (b ∷ []) h in
      let (j, small_j, h2) = digits-cons _ _ b n [] h1 in omega (arith, digits-nil _ _ n h2)
  digits-lt (a ∷ b ∷ c ∷ []) n short h =
      let (i, small_i, h1) = digits-cons 0 0 a n (b ∷ c ∷ []) h in
      let (j, small_j, h2) = digits-cons _ _ b n (c ∷ []) h1 in
      let (k, small_k, h3) = digits-cons _ _ c n [] h2 in omega (arith, digits-nil _ _ n h3)
  digits-lt (a ∷ b ∷ c ∷ d ∷ chars) n short h = absurd (omega arith)

  symbolic-lt : (m : Parsed Machine) (n : ℕ) → (m >>= λ m. ok (mode_of m.perm)) ≡ ok n → n < 512
  symbolic-lt (ok m) n h = ground (arith, h, mode_of-lt m.perm)
  symbolic-lt m n h = cc

  -- Whatever string is parsed and whatever tonumber makes of its characters, a mode that is
  -- returned has nine bits.
  pub parse_mode-lt : (modestring : Bytes) (n : ℕ) → parse_mode tonumber modestring ≡ ok n → n < 512
  unfolding parse_mode
  parse_mode-lt modestring n h = elim (Option-cases (tonumber modestring)) [
    | inl symbolic ↦ symbolic-lt (run start (non_spaces modestring)) n (ground (arith, h, symbolic))
    | inr (number, octal) ↦
        digits-lt (non_spaces modestring) n (ground (arith, h, octal, length-non_spaces modestring))
          (ground (arith, h, octal))
  ]
