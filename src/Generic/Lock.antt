-- ===== src/Generic/Lock.antt =====
-- generic/lock.lua: locks that are directories. What e2lib.mkdir and e2lib.rmdir do is the
-- parameter `Dirs`: operations on an unknown state of the file system.
pub mod Laws
pub mod Restores
pub mod Paired
use e2factory.Common.{
  ℕ, zero, suc, Bool, true, false, ◌==◌, ltb, Option, none, some, List, [], ◌∷◌, ◌++◌, Bytes,
  length, bytes_eq, if◌then◌else◌,
}

-- What `mkdir` returns: true, or an error object with the code EEXIST or another.
pub data Made : Type 0 where
  made exists failed : Made

pub record Dirs : Type 1 where
  pub World : Type 0
  pub mkdir : World → Bytes → Made × World
  pub rmdir : World → Bytes → Bool × World

-- What `lock` returns.
pub data Locking : Type 0 where
  locked in_use refused : Locking

-- The lock context with the state of the file system.
pub record Locks (World : Type 0) : Type 0 where
  pub locks : List Bytes
  pub world : World

abbrev pub behind : Bytes → Option (List Bytes) → Option (List Bytes)
behind x none = none
behind x (some rest) = some (x ∷ rest)

-- The first entry that is `dir` is removed; `none` if there is none.
unfoldable pub remove_first : List Bytes → Bytes → Option (List Bytes)
remove_first [] dir = none
remove_first (x ∷ locks) dir =
    let later = behind x (remove_first locks dir) in if bytes_eq dir x then some locks else later

module _ (dirs : Dirs) where
  unfoldable pub new : dirs.World → Locks dirs.World
  new world = record { locks = []; world = world }

  -- `lock` behind the call of `mkdir`.
  unfoldable pub after_mkdir :
      Locks dirs.World → Bytes → Made → dirs.World → Locking × Locks dirs.World
  after_mkdir l dir made world = (locked, record { locks = l.locks ++ dir ∷ []; world = world })
  after_mkdir l dir exists world = (in_use, record l { world = world })
  after_mkdir l dir failed world = (refused, record l { world = world })

  unfoldable pub lock : Locks dirs.World → Bytes → Locking × Locks dirs.World
  unfolding after_mkdir
  lock l dir = let (rc, world) = dirs.mkdir l.world dir in after_mkdir l dir rc world

  -- `unlock` behind the search of the entry.
  unfoldable pub after_search :
      Locks dirs.World → Bytes → Option (List Bytes) → Bool × Locks dirs.World
  after_search l dir none = (true, l)
  after_search l dir (some rest) =
      let (rc, world) = dirs.rmdir l.world dir in (rc, record { locks = rest; world = world })

  unfoldable pub unlock : Locks dirs.World → Bytes → Bool × Locks dirs.World
  unfolding after_search remove_first
  unlock l dir = after_search l dir (remove_first l.locks dir)

  -- The loop of `cleanup`, for at most `fuel` rounds; `none`: locks are left.
  unfoldable pub cleanup_from : ℕ → Locks dirs.World → Option (Locks dirs.World)
  unfolding unlock
  cleanup_from zero l = elim l.locks [ [] ↦ some l | x ∷ locks ↦ none ]
  cleanup_from (suc fuel) l = elim l.locks [
    | [] ↦ some l
    | x ∷ locks ↦ cleanup_from fuel (unlock l x).1
  ]

  -- Each round takes one lock away.
  unfoldable pub cleanup : Locks dirs.World → Option (Locks dirs.World)
  unfolding cleanup_from
  cleanup l = cleanup_from (length l.locks) l
