-- ===== src/Generic/Lock/Paired.antt =====
-- generic/lock.lua: the calls of mkdir and rmdir that the locks make, over any file system.
use e2factory.Common.{
  ℕ, zero, suc, ◌+◌, ◌≡◌, refl, sym, ap, Bool, true, false, Option, none, some, List, [], ◌∷◌, ◌++◌,
  Bytes, bytes_eq, bytes_eq_iff, arith, Bool-cases, inl, inr, if◌then◌else◌,
}
use e2factory.Generic.Lock.{
  Made, made, exists, failed, Dirs, Locks, new, after_mkdir, lock, after_search, unlock, behind,
  remove_first, cleanup,
}
use e2factory.Generic.Lock.Laws.{remove_all, cleanup_complete}
use e2factory.Generic.Lock.Restores.{Operation, hold, release, run}

pub data DirCall : Type 0 where
  mkdir : Bytes → Made → DirCall
  rmdir : Bytes → DirCall

-- The same operations with a log of the calls, the last one first.
abbrev pub logged : Dirs → Dirs
logged dirs = record {
  World = dirs.World × List DirCall;
  mkdir = λ w d. ((dirs.mkdir w.0 d).0, ((dirs.mkdir w.0 d).1, mkdir d (dirs.mkdir w.0 d).0 ∷ w.1));
  rmdir = λ w d. ((dirs.rmdir w.0 d).0, ((dirs.rmdir w.0 d).1, rmdir d ∷ w.1));
}

abbrev one_more : Bool → Option ℕ → Option ℕ
one_more hit none = none
one_more hit (some n) = if hit then some (n + 1) else some n

abbrev one_less : Bool → Option ℕ → Option ℕ
one_less hit none = none
one_less true (some zero) = none
one_less true (some (suc n)) = some n
one_less false (some n) = some n

-- How many mkdirs of `d` that returned true have not been followed by an rmdir of `d` yet; `none`
-- if there was an rmdir too many.
abbrev pub standing : Bytes → List DirCall → Option ℕ
standing d [] = some 0
standing d (mkdir x made ∷ log) = one_more (bytes_eq x d) (standing d log)
standing d (mkdir x exists ∷ log) = standing d log
standing d (mkdir x failed ∷ log) = standing d log
standing d (rmdir x ∷ log) = one_less (bytes_eq x d) (standing d log)

abbrev count : Bytes → List Bytes → ℕ
count d [] = 0
count d (x ∷ locks) = let n = count d locks in if bytes_eq x d then n + 1 else n

count-append :
    (d : Bytes) (locks : List Bytes) (x : Bytes)
    → count d (locks ++ x ∷ []) ≡ (if bytes_eq x d then count d locks + 1 else count d locks)
count-append d [] x = ground arith
count-append d (y ∷ locks) x = ground (arith, count-append d locks x)

-- What is left behind the search of `x` has one `x` less.
abbrev Less : Bytes → List Bytes → Bytes → Option (List Bytes) → Type 0
Less d locks x none = Unit
Less d locks x (some rest) =
    count d locks ≡ (if bytes_eq x d then count d rest + 1 else count d rest)

behind-Less :
    (d : Bytes) (y : Bytes) (locks : List Bytes) (x : Bytes) (o : Option (List Bytes))
    → Less d locks x o
    → Less d (y ∷ locks) x (behind y o)
behind-Less d y locks x none h = tt
behind-Less d y locks x (some rest) h = ground (arith, h)

remove_first-Less :
    (d : Bytes) (locks : List Bytes) (x : Bytes) → Less d locks x (remove_first locks x)
unfolding remove_first
remove_first-Less d [] x = tt
remove_first-Less d (y ∷ locks) x = elim (Bool-cases (bytes_eq x y)) [
  | inl same ↦ rw same (
      ap (λ z. if bytes_eq z d then count d locks + 1 else count d locks)
        (sym ((bytes_eq_iff x y).0 same)))
  | inr other ↦ rw other (behind-Less d y locks x _ (remove_first-Less d locks x))
]

module _ (dirs : Dirs) (d : Bytes) where
  abbrev Matched : Locks (logged dirs).World → Type 0
  Matched l = standing d l.world.1 ≡ some (count d l.locks)

  after_mkdir-Matched :
      (l : Locks (logged dirs).World) (x : Bytes) (rc : Made) (w : dirs.World)
      → Matched l
      → Matched (after_mkdir (logged dirs) l x rc (w, mkdir x rc ∷ l.world.1)).1
  unfolding after_mkdir
  after_mkdir-Matched l x made w h = rw h (ground (arith, count-append d l.locks x))
  after_mkdir-Matched l x exists w h = h
  after_mkdir-Matched l x failed w h = h

  lock-Matched :
      (l : Locks (logged dirs).World) (x : Bytes) → Matched l → Matched (lock (logged dirs) l x).1
  unfolding lock
  lock-Matched l x h = after_mkdir-Matched l x (dirs.mkdir l.world.0 x).0 _ h

  less :
      (locks rest : List Bytes) (x : Bytes) (log : List DirCall)
      → Less d locks x (some rest)
      → standing d log ≡ some (count d locks)
      → standing d (rmdir x ∷ log) ≡ some (count d rest)
  less locks rest x log h m = elim (Bool-cases (bytes_eq x d)) [
    | inl hit ↦ rw (m, hit) (ground (arith, h, hit))
    | inr other ↦ rw (m, other) (ground (arith, h, other))
  ]

  after_search-Matched :
      (l : Locks (logged dirs).World) (x : Bytes) (o : Option (List Bytes))
      → Less d l.locks x o
      → Matched l
      → Matched (after_search (logged dirs) l x o).1
  unfolding after_search
  after_search-Matched l x none h m = m
  after_search-Matched l x (some rest) h m = less l.locks rest x l.world.1 h m

  unlock-Matched :
      (l : Locks (logged dirs).World) (x : Bytes) → Matched l → Matched (unlock (logged dirs) l x).1
  unfolding unlock
  unlock-Matched l x m = after_search-Matched l x _ (remove_first-Less d l.locks x) m

  run-Matched :
      (ops : List Operation) (l : Locks (logged dirs).World)
      → Matched l
      → Matched (run (logged dirs) l ops)
  run-Matched [] l m = m
  run-Matched (hold x ∷ ops) l m = run-Matched ops (lock (logged dirs) l x).1 (lock-Matched l x m)
  run-Matched (release x ∷ ops) l m =
      run-Matched ops (unlock (logged dirs) l x).1 (unlock-Matched l x m)

  remove_all-Matched :
      (locks : List Bytes) (w : dirs.World × List DirCall)
      → standing d w.1 ≡ some (count d locks)
      → standing d (remove_all (logged dirs) w locks).1 ≡ some 0
  remove_all-Matched [] w m = m
  remove_all-Matched (x ∷ locks) w m =
      remove_all-Matched locks ((logged dirs).rmdir w x).1 (less (x ∷ locks) locks x w.1 refl m)

-- Over any file system, whatever its calls answer and whatever was locked and unlocked: cleanup
-- ends and leaves no lock, and then each mkdir of a lock that returned true has been followed by
-- just one rmdir of the same directory, and there was no rmdir without such a mkdir in front of it.
pub cleanup-paired :
    (dirs : Dirs) (before : dirs.World) (ops : List Operation)
    → (w : dirs.World × List DirCall) × (cleanup
          (logged dirs)
          (run (logged dirs) (new (logged dirs) (before, [])) ops)
        ≡ some (record { locks = []; world = w }))
      × ((d : Bytes) → standing d w.1 ≡ some 0)
unfolding new
cleanup-paired dirs before ops =
    let l = run (logged dirs) (new (logged dirs) (before, [])) ops in
    (
      remove_all (logged dirs) l.world l.locks,
      cleanup_complete (logged dirs) l.locks l.world,
      λ d.
          remove_all-Matched dirs d l.locks l.world
            (run-Matched dirs d ops (new (logged dirs) (before, [])) refl),
    )
