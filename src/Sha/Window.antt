-- ===== src/Sha/Window.antt =====
-- generic/sha1.c and generic/sha2.c: a schedule of sixteen words, in which each word takes the
-- place of the oldest, seen as the end of a schedule that grows.
use e2factory.Common.{
  ℕ, zero, suc, ◌+◌, ◌%◌, ◌≤◌, ◌<◌, ◌≡◌, ◌≢◌, ◌⊎◌, inl, inr, refl, ap, ◌∙◌, sym, List, [], ◌∷◌,
  ◌++◌, get_or, set, length, length-append, length-set, arith,
}

module _ {A : Type 0} where
  pub get_or-set : (xs : List A) (i : ℕ) (x d : A) → i < length xs → get_or (set xs i x) i d ≡ x
  get_or-set [] i x d h = absurd (omega arith)
  get_or-set (y ∷ ys) zero x d h = refl
  get_or-set (y ∷ ys) (suc i) x d h = get_or-set ys i x d (omega arith)

  pub get_or-set_other :
      (xs : List A) (i j : ℕ) (x d : A) → i ≢ j → get_or (set xs j x) i d ≡ get_or xs i d
  get_or-set_other [] i j x d h = refl
  get_or-set_other (y ∷ ys) zero zero x d h = absurd (h refl)
  get_or-set_other (y ∷ ys) zero (suc j) x d h = refl
  get_or-set_other (y ∷ ys) (suc i) zero x d h = refl
  get_or-set_other (y ∷ ys) (suc i) (suc j) x d h = get_or-set_other ys i j x d (λ e. h (ap suc e))

  get_or-append :
      (xs ys : List A) (i : ℕ) (d : A) → i < length xs → get_or (xs ++ ys) i d ≡ get_or xs i d
  get_or-append [] ys i d h = absurd (omega arith)
  get_or-append (x ∷ xs) ys zero d h = refl
  get_or-append (x ∷ xs) ys (suc i) d h = get_or-append xs ys i d (omega arith)

  get_or-append_last : (xs : List A) (x d : A) → get_or (xs ++ (x ∷ [])) (length xs) d ≡ x
  get_or-append_last [] x d = refl
  get_or-append_last (y ∷ ys) x d = get_or-append_last ys x d

-- The last sixteen words of a schedule, each at its index modulo 16.
pub record Window (w s : List ℕ) : Type 0 where
  pub wide : length w ≡ 16
  pub same : (i : ℕ) → i < length s → length s ≤ i + 16 → get_or w (i % 16) 0 ≡ get_or s i 0

pub Window-add :
    (w s : List ℕ) (x : ℕ) → Window w s → Window (set w (length s % 16) x) (s ++ (x ∷ []))
Window-add w s x h = record {
  wide = length-set w (length s % 16) x ∙ h.wide;
  same = λ i before recent. elim (split i (omega (arith, length-append s (x ∷ [])))) [
    | inl here ↦
        ap (λ k. get_or (set w (length s % 16) x) (k % 16) 0) here
        ∙ get_or-set w (length s % 16) x 0 (omega (arith, h.wide))
        ∙ sym (get_or-append_last s x 0)
        ∙ ap (λ k. get_or (s ++ (x ∷ [])) k 0) (sym here)
    | inr older ↦
        get_or-set_other w (i % 16) (length s % 16) x 0
          (λ e. absurd (omega (arith, e, length-append s (x ∷ []))))
        ∙ h.same i older (omega (arith, length-append s (x ∷ [])))
        ∙ sym (get_or-append s (x ∷ []) i 0 older)
  ];
}
  where
    split : (i : ℕ) → i < length s + 1 → (i ≡ length s) ⊎ (i < length s)
    split i h = omega arith
