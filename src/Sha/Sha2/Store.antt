-- ===== src/Sha/Sha2/Store.antt =====
-- generic/sha2.c: what `memcpy` and `memset` behind the bytes that wait leave in the buffer.
use e2factory.Common.{
  ℕ, ◌+◌, ◌≤◌, ◌≡◌, refl, ap, ◌∙◌, true, Option, some, ◌++◌, Bytes, arith, length, length-append,
  length-take, length-drop, take, drop, take-splice, leb,
}
use e2factory.Sha.Words.{memcpy}
use e2factory.Sha.Sha2.{Machine, Context, store}

module _ (m : Machine) where
  -- The buffer has its size and begins with these bytes.
  pub record Begins (c : Context m) (front : Bytes) : Type 0 where
    pub sized : length c.buffer ≡ m.block
    pub starts : take (length front) c.buffer ≡ front

  -- A store that stays inside the buffer, and changes it only.
  pub record Written (c : Context m) (front : Bytes) (r : Option (Context m)) : Type 0 where
    pub content : Bytes
    pub returns : r ≡ some (record c { buffer = content })
    pub begins : Begins (record c { buffer = content }) front

  pub store-Written :
      (c : Context m) (front bytes : Bytes) (at n : ℕ)
      → Begins c front
      → length front ≡ at
      → at + n ≤ m.block
      → n ≤ length bytes
      → Written c (front ++ take n bytes) (store m c at bytes n)
  unfolding memcpy
  store-Written c front bytes at n b here room enough =
      let fits : leb (at + n) (length c.buffer) ≡ true = ground (arith, b.sized) in
      record {
        content = take at c.buffer ++ (take n bytes ++ drop (at + n) c.buffer);
        returns = rw (store, fits) refl;
        begins = record {
          sized = omega (
            arith,
            b.sized,
            length-append (take at c.buffer) (take n bytes ++ drop (at + n) c.buffer),
            length-append (take n bytes) (drop (at + n) c.buffer),
            length-take at c.buffer,
            length-take n bytes,
            length-drop (at + n) c.buffer,
          );
          starts =
              ap (λ k. take k (take at c.buffer ++ (take n bytes ++ drop (at + n) c.buffer))) total
              ∙ take-splice at n c.buffer bytes (drop (at + n) c.buffer) (omega (arith, b.sized))
                  enough
              ∙ ap (λ w. w ++ take n bytes)
                  (ap (λ k. take k c.buffer) (omega (arith, here)) ∙ b.starts);
        };
      }
    where
      total : length (front ++ take n bytes) ≡ at + n
      total = omega (arith, here, enough, length-append front (take n bytes), length-take n bytes)
