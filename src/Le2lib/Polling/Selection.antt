-- ===== src/Le2lib/Polling/Selection.antt =====
-- generic/le2lib.c, `poll_fd`: which descriptors the result holds, and in what order.
use e2factory.Common.{
  ℕ, zero, suc, ◌+◌, ◌-◌, ◌≤◌, ◌≡◌, refl, ap, ◌∙◌, List, [], ◌∷◌, ℤ, pos, arith, length, get_or,
  take, take_all, ltb, ◌==◌, if◌then◌else◌, Bool-cases, inl, inr,
}
use e2factory.Lua.{Value, number, Fields, end, field}
use e2factory.Le2lib.Polling.{ready_entry, ready_from}

module _ (fds : List ℤ) (revents : List ℕ) where
  -- The descriptors below the position `n` that have an event, the last first.
  pub ready_below : ℕ → List Value
  ready_below zero = []
  ready_below (suc n) =
      let rest = ready_below n in
      if get_or revents n 0 == 0
      then rest
      else ready_entry (get_or fds n (pos 0)) n (get_or revents n 0) ∷ rest

  -- How many descriptors below `n` have an event.
  unfoldable pub count_ready : ℕ → ℕ
  count_ready zero = 0
  count_ready (suc n) = if get_or revents n 0 == 0 then count_ready n else suc (count_ready n)

  -- A Lua array with these values, from the key `i` on.
  abbrev pub array_from : ℕ → List Value → Fields
  array_from i [] = end
  array_from i (v ∷ vs) = field (number (pos i)) v (array_from (i + 1) vs)

  take-nil : (n : ℕ) → take {A = Value} n [] ≡ []
  take-nil zero = refl
  take-nil (suc n) = refl

  ready_from-eq-array :
      (f n index : ℕ)
      → ready_from fds revents f n index ≡ array_from (index + 1) (take (f - index) (ready_below n))
  unfolding ready_from ready_below
  ready_from-eq-array f zero index = rw take-nil
  ready_from-eq-array f (suc n) index = elim (Bool-cases (ltb index f)) [
    | inr full ↦ let none_left : f - index ≡ 0 = ground arith in rw (full, none_left) refl
    | inl room ↦
        let step : f - index ≡ suc (f - (index + 1)) = ground arith in
        elim (Bool-cases (get_or revents n 0 == 0)) [
          | inl idle ↦ rw (room, idle) (ready_from-eq-array f n index)
          | inr ready ↦
              rw (room, ready, step)
                (ap
                  (field (number (pos (index + 1)))
                    (ready_entry (get_or fds n (pos 0)) n (get_or revents n 0)))
                  (ready_from-eq-array f n (index + 1)))
        ]
  ]

  length-ready_below : (n : ℕ) → length (ready_below n) ≡ count_ready n
  unfolding ready_below count_ready
  length-ready_below zero = refl
  length-ready_below (suc n) = ground (arith, length-ready_below n)

  -- The loop of `poll_fd` builds an array that holds, for the last descriptors first, one element
  -- for each descriptor with an event, at most as many as `poll` counted.
  pub ready_from-take :
      (f : ℕ)
      → ready_from fds revents f (length fds) 0 ≡ array_from 1 (take f (ready_below (length fds)))
  ready_from-take f =
      let whole : f - 0 ≡ f = omega arith in rw whole at (ready_from-eq-array f (length fds) 0)

  -- If `poll` counted no fewer descriptors than have an event, the array of `poll_fd` holds an
  -- element for each of them, for the last descriptors first, and for no other.
  pub ready_from_complete :
      (f : ℕ)
      → count_ready (length fds) ≤ f
      → ready_from fds revents f (length fds) 0 ≡ array_from 1 (ready_below (length fds))
  ready_from_complete f counted =
      ready_from-take f ∙ ap (array_from 1) (take_all f _ (rw length-ready_below counted))
