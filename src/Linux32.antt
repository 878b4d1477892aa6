-- ===== src/Linux32.antt =====
-- local/linux32.c: the wrapper that runs a command under the 32-bit personality.
use e2factory.Common.{
  length, drop, ◌⊎◌, ◌≤◌, ◌≡◌, Bool, List, [], ◌∷◌, ◌++◌, Bytes, codes, if◌then◌else◌, ℕ, arith,
}

-- The kernel's and libc's answers: the error of a failed call as its number.
pub record Kernel : Type 0 where
  pub personality_ok : Bool
  pub personality_errno : ℕ
  pub execvp_ok : Bytes → List Bytes → Bool
  pub execvp_errno : ℕ
  pub strerror : ℕ → Bytes

pub data Event : Type 0 where
  personality : ℕ → Event
  stderr : Bytes → Event
  execvp : Bytes → List Bytes → Event
  exit : ℕ → Event

-- PER_LINUX32
abbrev pub per_linux32 : ℕ
per_linux32 = 8

-- How a run is seen from outside: another program with its arguments, under a personality; or an
-- exit status, with what was printed on the standard error; or neither.
pub data Seen : Type 0 where
  becomes : ℕ → Bytes → List Bytes → Seen
  exits : List Bytes → ℕ → Seen
  unfinished : Seen

-- What the wrapper promises: the command of its arguments under the 32-bit personality, or status
-- 0 without a word if there is none, or status 1 with one message.
abbrev pub Promised : List Bytes → Seen → Type 0
Promised argv (becomes p file args) = (p ≡ per_linux32) × (file ∷ args ≡ drop 1 argv)
Promised argv (exits printed code) =
    ((code ≡ 0) × (printed ≡ []) × (length argv ≤ 1)) ⊎ ((code ≡ 1) × (length printed ≡ 1))
Promised argv unfinished = ⊥

module _ (k : Kernel) where
  -- From the test of the argument count on.
  unfoldable pub command : List Bytes → List Event
  command (prog ∷ file ∷ args) =
      execvp file (file ∷ args)
      ∷ (if k.execvp_ok file (file ∷ args)
          then []
          else stderr (codes "Cannot exec: " ++ (k.strerror k.execvp_errno ++ codes "\n"))
            ∷ exit 1
            ∷ [])
  command _ = exit 0 ∷ []

  unfoldable pub main : List Bytes → List Event
  main argv =
      personality per_linux32
      ∷ (if k.personality_ok
          then command argv
          else stderr
              (codes "Cannot set 8 personality: " ++ (k.strerror k.personality_errno ++ codes "\n"))
            ∷ exit 1
            ∷ [])

  -- A reader of the trace: the personality in force, and what was printed so far.
  abbrev pub seen : ℕ → List Bytes → List Event → Seen
  seen current printed [] = unfinished
  seen current printed (personality p ∷ es) =
      seen (if k.personality_ok then p else current) printed es
  seen current printed (stderr msg ∷ es) = seen current (printed ++ (msg ∷ [])) es
  seen current printed (execvp file args ∷ es) =
      let rest = seen current printed es in
      if k.execvp_ok file args then becomes current file (drop 1 args) else rest
  seen current printed (exit code ∷ es) = exits printed code

  -- Whatever the kernel answers, and for every command line, the wrapper becomes the command that
  -- its arguments name, with these arguments and under the 32-bit personality; or it exits with
  -- status 0, without a message, and then no command was named; or it exits with status 1 and one
  -- message. It never ends in another way.
  pub main-Promised : (argv : List Bytes) (old : ℕ) → Promised argv (seen old [] (main argv))
  unfolding main command
  main-Promised [] old = ground arith
  main-Promised (prog ∷ []) old = ground arith
  main-Promised (prog ∷ file ∷ args) old = ground arith
