-- ===== src/Generic/Lock/Laws.antt =====
-- generic/lock.lua: `cleanup` releases what is locked, whatever fails.
use e2factory.Common.{◌≡◌, refl, ap, ◌∙◌, some, List, [], ◌∷◌, Bytes, length}
use e2factory.Common.Sorting.{bytes_eq_refl}
use e2factory.Generic.Lock.{Dirs, unlock, remove_first, cleanup_from, cleanup}

module _ (dirs : Dirs) where
  -- One `rmdir` for each, in order; a failure is not looked at.
  abbrev pub remove_all : dirs.World → List Bytes → dirs.World
  remove_all world [] = world
  remove_all world (dir ∷ rest) = remove_all (dirs.rmdir world dir).1 rest

  unlock-first :
      (x : Bytes) (locks : List Bytes) (world : dirs.World)
      → (unlock dirs (record { locks = x ∷ locks; world = world }) x).1
        ≡ record { locks = locks; world = (dirs.rmdir world x).1 }
  unfolding unlock remove_first
  unlock-first x locks world = rw (bytes_eq_refl x, unlock) refl

  -- cleanup ends, and leaves no lock: it removes each of the directories once, in the order in
  -- which they were locked, and goes on where a removal fails.
  pub cleanup_complete :
      (locks : List Bytes) (world : dirs.World)
      → cleanup dirs (record { locks = locks; world = world })
        ≡ some (record { locks = []; world = remove_all world locks })
  unfolding cleanup
  cleanup_complete [] world = refl
  cleanup_complete (x ∷ locks) world =
      ap (cleanup_from dirs (length locks)) (unlock-first x locks world)
      ∙ cleanup_complete locks (dirs.rmdir world x).1
