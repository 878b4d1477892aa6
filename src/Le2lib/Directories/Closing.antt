-- ===== src/Le2lib/Directories/Closing.antt =====
-- generic/le2lib.c, `do_closefrom`: which descriptors are closed, for a directory whose entries
-- are written as the kernel writes /proc/self/fd.
use e2factory.Common.{
  ℕ, zero, suc, ◌+◌, ◌-◌, ◌*◌, ◌/◌, ◌%◌, ◌<◌, ◌≡◌, refl, ap, ap₂, ◌∙◌, Bool, true, false, ◌||◌,
  List, [], ◌∷◌, map, Bytes, ℤ, pos, arith, if◌then◌else◌, Bool-cases, inl, inr, ltb, leb, ltb_ℤ,
  eq_ℤ, codes,
}
use e2factory.Le2lib.Posix.{Posix}
use e2factory.Le2lib.Directories.{atoi, atoi_from, no_digit, close_names}

-- The decimal digits of a number below 10 ^ fuel, in front of a text.
pub decimal_from : ℕ → ℕ → Bytes → Bytes
decimal_from zero n rest = rest
decimal_from (suc fuel) n rest =
    let more = decimal_from fuel (n / 10) ((b'0' + n % 10) ∷ rest) in
    if ltb n 10 then (b'0' + n) ∷ rest else more

-- A number has fewer digits than its successor counts.
pub decimal : ℕ → Bytes
decimal n = decimal_from (suc n) n []

atoi_from-digit :
    (acc d : ℕ) (rest : Bytes)
    → d < 10
    → atoi_from acc ((b'0' + d) ∷ rest) ≡ atoi_from (acc * 10 + d) rest
unfolding atoi_from
atoi_from-digit acc d rest h =
    let value : b'0' + d - b'0' ≡ d = omega arith in
    let low : leb b'0' (b'0' + d) ≡ true = ground arith in
    let high : leb (b'0' + d) b'9' ≡ true = ground arith in rw (value, low, high) refl

atoi_from-decimal_from :
    (fuel n acc : ℕ) (rest : Bytes)
    → n < fuel
    → (k : ℕ) × (atoi_from acc (decimal_from fuel n rest) ≡ atoi_from (acc * k + n) rest)
unfolding decimal_from
atoi_from-decimal_from zero n acc rest h = absurd (omega arith)
atoi_from-decimal_from (suc fuel) n acc rest h = elim (Bool-cases (ltb n 10)) [
  | inl small ↦ (10, rw small (atoi_from-digit acc n rest (ground arith)))
  | inr big ↦
      let (k, e) =
        atoi_from-decimal_from fuel (n / 10) acc ((b'0' + n % 10) ∷ rest) (ground arith) in
      let last = atoi_from-digit (acc * k + n / 10) (n % 10) rest (omega arith) in
      let value : (acc * k + n / 10) * 10 + n % 10 ≡ acc * (k * 10) + n = grind arith in
      (k * 10, rw big (e ∙ last ∙ ap (λ v. atoi_from v rest) value))
]

-- `atoi` reads back every number that is written in decimal.
pub atoi-decimal : (n : ℕ) → atoi (decimal n) ≡ n
unfolding atoi decimal atoi_from
atoi-decimal n = let (k, e) = atoi_from-decimal_from (suc n) n 0 [] (omega arith) in e ∙ omega arith

decimal_from-starts :
    (fuel n : ℕ) (rest : Bytes) → n < fuel → no_digit (decimal_from fuel n rest) ≡ false
unfolding decimal_from
decimal_from-starts zero n rest h = absurd (omega arith)
decimal_from-starts (suc fuel) n rest h = elim (Bool-cases (ltb n 10)) [
  | inl small ↦ rw small (ground arith)
  | inr big ↦ rw big (decimal_from-starts fuel (n / 10) ((b'0' + n % 10) ∷ rest) (ground arith))
]

-- The descriptors from `from` on, without `myself`.
pub to_close : ℤ → ℤ → List ℕ → List ℕ
to_close from myself [] = []
to_close from myself (fd ∷ fds) =
    let rest = to_close from myself fds in
    if ltb_ℤ (pos fd) from || eq_ℤ (pos fd) myself then rest else fd ∷ rest

module _ (p : Posix) where
  -- One `close` after the other.
  abbrev pub close_each : List ℕ → p.State → p.State
  close_each [] s = s
  close_each (fd ∷ fds) s = close_each fds (p.close (pos fd) s).1

  close_names-cons :
      (from myself : ℤ) (name : Bytes) (names : List Bytes) (s : p.State) (fd : ℕ)
      → atoi name ≡ fd
      → no_digit name ≡ false
      → close_names p from myself (name ∷ names) s
        ≡ close_names p from myself names
            (if ltb_ℤ (pos fd) from || eq_ℤ (pos fd) myself then s else (p.close (pos fd) s).1)
  unfolding close_names
  close_names-cons from myself name names s fd value starts =
      ap₂
        (λ (k : ℕ) (b : Bool).
          close_names p from myself names
            (if b || (ltb_ℤ (pos k) from || eq_ℤ (pos k) myself) then s else (p.close (pos k) s).1))
        value starts

  close_names-decimal :
      (from myself : ℤ) (fds : List ℕ) (s : p.State)
      → close_names p from myself (map decimal fds) s ≡ close_each (to_close from myself fds) s
  unfolding close_names to_close
  close_names-decimal from myself [] s = refl
  close_names-decimal from myself (fd ∷ fds) s =
      close_names-cons from myself (decimal fd) (map decimal fds) s fd (atoi-decimal fd) starts
      ∙ elim (Bool-cases (ltb_ℤ (pos fd) from || eq_ℤ (pos fd) myself)) [
        | inl skip ↦ rw skip (close_names-decimal from myself fds s)
        | inr take_it ↦ rw take_it (close_names-decimal from myself fds (p.close (pos fd) s).1)
      ]
    where
      starts : no_digit (decimal fd) ≡ false
      starts = unfold decimal in decimal_from-starts (suc fd) fd [] (omega arith)

  -- For a directory that holds ".", ".." and the open descriptors in decimal, the loop of
  -- `do_closefrom` closes each descriptor from `from` on but the directory's own, once each, in
  -- the order of the directory, and no other.
  pub close_names-exact :
      (from myself : ℤ) (fds : List ℕ) (s : p.State)
      → close_names p from myself (codes "." ∷ codes ".." ∷ map decimal fds) s
        ≡ close_each (to_close from myself fds) s
  unfolding close_names
  close_names-exact from myself fds s = close_names-decimal from myself fds s
