-- ===== src/Tests/Generic.antt =====
-- The theorems on generic/*.lua, on small inputs.
use e2factory.Common.{
  ◌≡◌, refl, Bool, true, false, not, ◌&&◌, ◌||◌, bytes_eq, take, length, some, List, [], ◌∷◌, ◌++◌,
  Bytes, codes, arith, Bool-cases, inl, inr, if◌then◌else◌,
}
use e2factory.Common.Sorting.{member}
use e2factory.Local.StringList.{remove_from}
use e2factory.Local.StringList.Members.{member-remove_from}
use e2factory.Generic.Paths.{join, dirname, basename, ends_in_sep, not_empty, slash}
use e2factory.Generic.Paths.Laws.{split, split-join, join-absolute}
use e2factory.Common.{Option, none, ltb, ◌-◌, ◌<◌, ◌+◌, ◌*◌, ℕ}
use e2factory.Generic.Modes.{parse_mode, ok}
use e2factory.Generic.Modes.Laws.{parse_mode-lt}
use e2factory.Generic.Modes.Symbolic.{digit, parse_mode-assign}
use e2factory.Generic.Quoting.{shquote, unquote, bare, unquote-shquote}
use e2factory.Generic.Lock.{
  Dirs, made, exists, Made, new, cleanup, lock, unlock, after_mkdir, after_search, remove_first,
}
use e2factory.Generic.Lock.Paired.{DirCall, logged, standing, cleanup-paired}
use e2factory.Generic.Lock.Restores.{
  IsLawful, hold, release, run, not_removed, cleanup-restores, Operation,
}

-- '"'"' in quotes
shquote_run : shquote (codes "a'b") ≡ codes "'a'\"'\"'b'"
unfolding shquote
shquote_run = refl

dirname_run : dirname (codes "/usr/lib//") ≡ codes "/usr"
unfolding dirname
dirname_run = refl

basename_run : basename (codes "/usr/lib//") ≡ codes "lib"
unfolding basename
basename_run = refl

unquote-shquote_example : unquote bare (shquote (codes "a'b $x")) ≡ some (codes "a'b $x")
unquote-shquote_example = unquote-shquote (codes "a'b $x")

split-join_example :
    split (join (codes "out" ∷ codes "res" ∷ codes "last" ∷ []))
    ≡ codes "out" ∷ codes "res" ∷ codes "last" ∷ []
unfolding not_empty
split-join_example =
    split-join (codes "out") (codes "res" ∷ codes "last" ∷ []) refl (refl, (refl, tt))

join-absolute_example :
    join (codes "out" ∷ (slash ∷ codes "res") ∷ []) ≡ codes "out" ++ slash ∷ slash ∷ codes "res"
unfolding ends_in_sep
join-absolute_example = join-absolute (codes "out") (codes "res") (λ e. cc) (λ e. cc) refl

-- The state is the list of the directories; one with another below it is not removed.
dirs_mkdir : List Bytes → Bytes → Made × List Bytes
dirs_mkdir w d = if member d w then (exists, w) else (made, d ∷ w)

abbrev below : Bytes → Bytes → Bool
below d x = bytes_eq (take (length d + 1) x) (d ++ slash ∷ [])

any_below : Bytes → List Bytes → Bool
any_below d [] = false
any_below d (x ∷ w) = below d x || any_below d w

dirs_rmdir : List Bytes → Bytes → Bool × List Bytes
dirs_rmdir w d =
    if member d w && not (any_below d w) then (true, (remove_from w d).0) else (false, w)

abbrev dirs : Dirs
dirs = record { World = List Bytes; mkdir = dirs_mkdir; rmdir = dirs_rmdir }

has : List Bytes → Bytes → Bool
has w d = member d w

dirs-IsLawful : IsLawful dirs has
unfolding dirs_mkdir dirs_rmdir has member
dirs-IsLawful = record {
  makes = λ w d e. elim (Bool-cases (member d w)) [
    | inl there ↦ ground (arith, e, there)
    | inr new ↦ rw new (refl, λ x. refl)
  ];
  keeps = λ w d e x. elim (Bool-cases (member d w)) [
    | inl there ↦ rw there refl
    | inr new ↦ absurd (e (rw new refl))
  ];
  removes = λ w d e x. ground (arith, e, member-remove_from w d x);
  stays = λ w d e x. ground (arith, e);
}

-- The first cannot be removed, since the second is below it when its turn comes.
abbrev nested : List Operation
nested = hold (codes "a") ∷ hold (codes "a/b") ∷ release (codes "x") ∷ []

nested_run : not_removed dirs (new dirs (codes "c" ∷ [])) nested ≡ codes "a" ∷ []
unfolding new lock unlock after_mkdir after_search remove_first dirs_mkdir dirs_rmdir any_below
    member bytes_eq
nested_run = refl

cleanup-restores_example :
    (w : List Bytes) × (cleanup dirs (run dirs (new dirs (codes "c" ∷ [])) nested)
      ≡ some (record { locks = []; world = w }))
    × ((x : Bytes)
        → has w x
          ≡ member x (not_removed dirs (new dirs (codes "c" ∷ [])) nested)
            || has (codes "c" ∷ []) x)
cleanup-restores_example = cleanup-restores dirs has dirs-IsLawful (codes "c" ∷ []) nested

cleanup-paired_example :
    (w : List Bytes × List DirCall) × (cleanup
        (logged dirs)
        (run (logged dirs) (new (logged dirs) ([], [])) nested)
      ≡ some (record { locks = []; world = w }))
    × ((d : Bytes) → standing d w.1 ≡ some 0)
cleanup-paired_example = cleanup-paired dirs [] nested

-- `tonumber`, of one digit or three.
abbrev tonumber : Bytes → Option ℕ
tonumber [] = none
tonumber (c ∷ []) = if ltb c b'0' then none else some (c - b'0')
tonumber (c ∷ d ∷ text) = if ltb b'9' c then none else some 0

octal_run : parse_mode tonumber (codes "750") ≡ ok 488
unfolding parse_mode
octal_run = refl

symbolic_run : parse_mode tonumber (codes "u=rwx,go+r") ≡ ok 484
unfolding parse_mode
symbolic_run = refl

parse_mode-lt_example : 488 < 512
parse_mode-lt_example = parse_mode-lt tonumber (codes "750") 488 octal_run

parse_mode-assign_example :
    parse_mode tonumber (codes "go=rx")
    ≡ ok (
        digit b'u' (codes "go") (codes "rx") * 64
        + digit b'g' (codes "go") (codes "rx") * 8
        + digit b'o' (codes "go") (codes "rx"))
parse_mode-assign_example = parse_mode-assign tonumber (codes "go") (codes "rx") refl refl refl refl
