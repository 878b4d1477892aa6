-- ===== src/Generic/Lock/Restores.antt =====
-- generic/lock.lua over a file system that makes and removes directories as documented: the locks
-- leave nothing behind but what could not be removed, and touch no directory but their own.
use e2factory.Common.{
  ◌≡◌, ◌≢◌, refl, ap, subst, ◌∙◌, Bool, true, false, not, ◌&&◌, ◌||◌, Option, none, some, List, [],
  ◌∷◌, ◌++◌, Bytes, bytes_eq, bytes_eq_iff, arith, Bool-cases, inl, inr,
}
use e2factory.Common.Sorting.{
  member, member-append, Distinct, Distinct-concat, bytes_eq_refl, bytes_eq_sym, member-bytes_eq,
}
use e2factory.Generic.Lock.{
  Made, made, exists, failed, Dirs, Locks, new, after_mkdir, lock, after_search, unlock, behind,
  remove_first, cleanup,
}
use e2factory.Generic.Lock.Laws.{remove_all, cleanup_complete}

-- What is left behind the search of `dir`.
abbrev Removed : List Bytes → Bytes → Option (List Bytes) → Type 0
Removed locks dir none = member dir locks ≡ false
Removed locks dir (some rest) =
    Distinct rest
    × ((x : Bytes) → member x rest ≡ not (bytes_eq dir x) && member x locks)
    × (member dir locks ≡ true)

behind-Removed :
    (y : Bytes) (locks : List Bytes) (dir : Bytes) (o : Option (List Bytes))
    → member y locks ≡ false
    → bytes_eq dir y ≡ false
    → Removed locks dir o
    → Removed (y ∷ locks) dir (behind y o)
unfolding member
behind-Removed y locks dir none fresh other h = ground (arith, h, other, bytes_eq_sym dir y)
behind-Removed y locks dir (some rest) fresh other (d, rests, there) = (
  (ground (arith, fresh, rests y), d),
  λ x. ground (
    arith,
    rests x,
    other,
    member-bytes_eq dir x locks,
    bytes_eq_iff dir x,
    bytes_eq_iff y x,
    bytes_eq_iff dir y,
  ),
  ground (arith, there),
)

remove_first-Removed :
    (locks : List Bytes) (dir : Bytes) → Distinct locks → Removed locks dir (remove_first locks dir)
unfolding remove_first member
remove_first-Removed [] dir d = refl
remove_first-Removed (y ∷ locks) dir (fresh, d) = elim (Bool-cases (bytes_eq dir y)) [
  | inl same ↦ rw same (
    d,
    λ x. ground (
      arith,
      fresh,
      same,
      member-bytes_eq y x locks,
      ap (λ z. bytes_eq z x) ((bytes_eq_iff dir y).0 same),
    ),
    ground (arith, same, bytes_eq_sym dir y),
  )
  | inr other ↦
      rw other (behind-Removed y locks dir _ fresh other (remove_first-Removed locks dir d))
]

remove_first-first : (y : Bytes) (locks : List Bytes) → remove_first (y ∷ locks) y ≡ some locks
unfolding remove_first
remove_first-first y locks = rw (bytes_eq_refl y) refl

-- `has` tells the directories of a state, each by its one name. `mkdir` returns true for a new directory only; each call
-- changes nothing where it fails, and nothing but its directory where it succeeds. When `rmdir`
-- fails is left open, for a directory that is not empty as for one that cannot be written.
pub record IsLawful (dirs : Dirs) (has : dirs.World → Bytes → Bool) : Type 0 where
  pub makes :
      (w : dirs.World) (d : Bytes)
      → (dirs.mkdir w d).0 ≡ made
      → (has w d ≡ false) × ((x : Bytes) → has (dirs.mkdir w d).1 x ≡ bytes_eq d x || has w x)
  pub keeps :
      (w : dirs.World) (d : Bytes)
      → (dirs.mkdir w d).0 ≢ made
      → (x : Bytes) → has (dirs.mkdir w d).1 x ≡ has w x
  pub removes :
      (w : dirs.World) (d : Bytes)
      → (dirs.rmdir w d).0 ≡ true
      → (x : Bytes) → has (dirs.rmdir w d).1 x ≡ not (bytes_eq d x) && has w x
  pub stays :
      (w : dirs.World) (d : Bytes)
      → (dirs.rmdir w d).0 ≡ false
      → (x : Bytes) → has (dirs.rmdir w d).1 x ≡ has w x

pub data Operation : Type 0 where
  hold release : Bytes → Operation

-- The directory that an `rmdir` with this answer leaves.
abbrev left : Bytes → Bool → List Bytes
left d true = []
left d false = d ∷ []

left-member : (d : Bytes) (rc : Bool) (x : Bytes) → member x (left d rc) ≡ not rc && bytes_eq d x
unfolding member
left-member d true x = refl
left-member d false x = ground arith

module _ (dirs : Dirs) where
  abbrev pub run : Locks dirs.World → List Operation → Locks dirs.World
  run l [] = l
  run l (hold d ∷ rest) = run (lock dirs l d).1 rest
  run l (release d ∷ rest) = run (unlock dirs l d).1 rest

  -- The directories for which the `rmdir` of `remove_all` failed.
  abbrev pub left_of_all : dirs.World → List Bytes → List Bytes
  left_of_all w [] = []
  left_of_all w (d ∷ locks) = left_of_all (dirs.rmdir w d).1 locks ++ left d (dirs.rmdir w d).0

  abbrev left_of : dirs.World → Bytes → Option (List Bytes) → List Bytes
  left_of w d none = []
  left_of w d (some rest) = left d (dirs.rmdir w d).0

  -- The locks that were released and for which `rmdir` failed, in `run` and then in `cleanup`.
  abbrev pub not_removed : Locks dirs.World → List Operation → List Bytes
  not_removed l [] = left_of_all l.world l.locks
  not_removed l (hold d ∷ ops) = not_removed (lock dirs l d).1 ops
  not_removed l (release d ∷ ops) =
      not_removed (unlock dirs l d).1 ops ++ left_of l.world d (remove_first l.locks d)

module _ (dirs : Dirs) (has : dirs.World → Bytes → Bool) where
  -- The directories are those of `before` and the locks.
  record Owns (before : Bytes → Bool) (l : Locks dirs.World) : Type 0 where
    all : (x : Bytes) → has l.world x ≡ member x l.locks || before x
    own : (x : Bytes) → member x l.locks ≡ true → before x ≡ false
    distinct : Distinct l.locks

  same_has : (base : Bytes → Bool) (d x : Bytes) → bytes_eq d x ≡ true → base d ≡ base x
  same_has base d x same = ap base ((bytes_eq_iff d x).0 same)

  module _ (lawful : IsLawful dirs has) where
    after_mkdir-Owns :
        (before : Bytes → Bool) (l : Locks dirs.World) (d : Bytes) (rc : Made)
        → (dirs.mkdir l.world d).0 ≡ rc
        → Owns before l
        → Owns before (after_mkdir dirs l d rc (dirs.mkdir l.world d).1).1
    unfolding after_mkdir member
    after_mkdir-Owns before l d made rc o =
        let (absent, added) = lawful.makes l.world d rc in
        record {
          all = λ x. ground (arith, added x, o.all x, member-append x l.locks (d ∷ []));
          own = λ x m. ground (
            arith,
            m,
            absent,
            o.all d,
            o.own x,
            member-append x l.locks (d ∷ []),
            same_has before d x,
          );
          distinct = Distinct-concat l.locks d o.distinct (ground (arith, absent, o.all d));
        }
    after_mkdir-Owns before l d exists rc o = record {
      all = λ x. lawful.keeps l.world d (λ e. cc) x ∙ o.all x;
      own = o.own;
      distinct = o.distinct;
    }
    after_mkdir-Owns before l d failed rc o = record {
      all = λ x. lawful.keeps l.world d (λ e. cc) x ∙ o.all x;
      own = o.own;
      distinct = o.distinct;
    }

    lock-Owns :
        (before : Bytes → Bool) (l : Locks dirs.World) (d : Bytes)
        → Owns before l
        → Owns before (lock dirs l d).1
    unfolding lock
    lock-Owns before l d o = after_mkdir-Owns before l d (dirs.mkdir l.world d).0 refl o

    -- The directories behind an `rmdir`, whatever it answers.
    has-rmdir :
        (w : dirs.World) (d x : Bytes)
        → has (dirs.rmdir w d).1 x ≡ not ((dirs.rmdir w d).0 && bytes_eq d x) && has w x
    has-rmdir w d x = elim (Bool-cases (dirs.rmdir w d).0) [
      | inl good ↦ rw good (lawful.removes w d good x)
      | inr bad ↦ rw bad (lawful.stays w d bad x)
    ]

    after_search-Owns :
        (before : Bytes → Bool) (l : Locks dirs.World) (d : Bytes) (o : Option (List Bytes))
        → Owns before l
        → Removed l.locks d o
        → Owns (λ x. member x (left_of dirs l.world d o) || before x) (after_search dirs l d o).1
    unfolding after_search member
    after_search-Owns before l d none owns h = owns
    after_search-Owns before l d (some rest) owns (distinct, rests, there) = record {
      all = λ x. ground (
        arith,
        rests x,
        owns.all x,
        has-rmdir l.world d x,
        left-member d (dirs.rmdir l.world d).0 x,
        owns.own d there,
        there,
        same_has before d x,
        same_has (λ x. member x l.locks) d x,
      );
      own = λ x m. ground (arith, m, rests x, owns.own x, left-member d (dirs.rmdir l.world d).0 x);
      distinct = distinct;
    }

    unlock-Owns :
        (before : Bytes → Bool) (l : Locks dirs.World) (d : Bytes)
        → Owns before l
        → Owns
            (λ x. member x (left_of dirs l.world d (remove_first l.locks d)) || before x)
            (unlock dirs l d).1
    unfolding unlock
    unlock-Owns before l d o =
        after_search-Owns before l d (remove_first l.locks d) o
          (remove_first-Removed l.locks d o.distinct)

    has-remove_all :
        (locks : List Bytes) (w : dirs.World) (before : Bytes → Bool) (x : Bytes)
        → Owns before (record { locks = locks; world = w })
        → has (remove_all dirs w locks) x ≡ member x (left_of_all dirs w locks) || before x
    unfolding member after_search
    has-remove_all [] w before x o = o.all x
    has-remove_all (y ∷ locks) w before x o =
        let first =
          after_search-Owns before (record { locks = y ∷ locks; world = w }) y (some locks) o
            (subst (Removed (y ∷ locks) y) (remove_first-first y locks)
              (remove_first-Removed (y ∷ locks) y o.distinct)) in
        ground (
          arith,
          has-remove_all locks (dirs.rmdir w y).1 _ x first,
          member-append x (left_of_all dirs (dirs.rmdir w y).1 locks) (left y (dirs.rmdir w y).0),
        )

    -- Over a file system in which each directory has one name, mkdir returns true for a new one
    -- only, and a call changes nothing where it fails and nothing but its directory where it
    -- succeeds: whatever was locked and unlocked, and with whatever results, cleanup ends and
    -- leaves no lock, and there are exactly the directories that were there before the first lock
    -- and those of the locks that were released, by unlock or cleanup, with an rmdir that failed.
    pub cleanup-restores :
        (before : dirs.World) (ops : List Operation)
        → (w : dirs.World) × (cleanup dirs (run dirs (new dirs before) ops)
            ≡ some (record { locks = []; world = w }))
          × ((x : Bytes)
              → has w x ≡ member x (not_removed dirs (new dirs before) ops) || has before x)
    unfolding new member
    cleanup-restores before ops =
        run-cleaned ops (new dirs before) (has before)
          record { all = λ x. refl; own = λ x m. cc; distinct = tt }
      where
        run-cleaned :
            (ops : List Operation) (l : Locks dirs.World) (base : Bytes → Bool)
            → Owns base l
            → (w : dirs.World) × (cleanup dirs (run dirs l ops)
                ≡ some (record { locks = []; world = w }))
              × ((x : Bytes) → has w x ≡ member x (not_removed dirs l ops) || base x)
        run-cleaned [] l base o = (
          remove_all dirs l.world l.locks,
          cleanup_complete dirs l.locks l.world,
          λ x. has-remove_all l.locks l.world base x o,
        )
        run-cleaned (hold d ∷ ops) l base o =
            run-cleaned ops (lock dirs l d).1 base (lock-Owns base l d o)
        run-cleaned (release d ∷ ops) l base o =
            let (w, ends, same) = run-cleaned ops (unlock dirs l d).1 _ (unlock-Owns base l d o) in
            (
              w,
              ends,
              λ x. ground (
                arith,
                same x,
                member-append x (not_removed dirs (unlock dirs l d).1 ops)
                    (left_of dirs l.world d (remove_first l.locks d)),
              ),
            )
