-- ===== src/Generic/Paths.antt =====
-- generic/e2lib.lua: file paths as strings.
pub mod Laws
use e2factory.Common.{
  ℕ, ◌+◌, ◌==◌, ltb, Bool, true, false, ◌||◌, Option, none, some, List, [], ◌∷◌, ◌++◌, Bytes,
  length, bytes_eq, if◌then◌else◌, zero, suc, take,
}

abbrev pub slash : ℕ
slash = b'/'

-- `buildpath:sub(-1) == sep`
unfoldable pub ends_in_sep : Bytes → Bool
ends_in_sep [] = false
ends_in_sep (c ∷ []) = c == slash
ends_in_sep (c ∷ d ∷ path) = ends_in_sep (d ∷ path)

-- `component:sub(1) == sep`: `sub(1)` is the whole component.
unfoldable pub is_sep : Bytes → Bool
is_sep component = bytes_eq component (slash ∷ [])

-- What stands between the path so far and the next component.
unfoldable pub separator : Bytes → Bool → Bytes → Bytes
unfolding ends_in_sep is_sep
separator buildpath sepnext component =
    if sepnext then (if ends_in_sep buildpath || is_sep component then [] else slash ∷ []) else []

unfoldable pub not_empty : Bytes → Bool
not_empty [] = false
not_empty (c ∷ component) = true

-- The loop of `join`.
unfoldable pub join_from : Bytes → Bool → List Bytes → Bytes
unfolding separator not_empty
join_from buildpath sepnext [] = buildpath
join_from buildpath sepnext (component ∷ args) =
    join_from (buildpath ++ separator buildpath sepnext component ++ component)
      (not_empty component) args

unfoldable pub join : List Bytes → Bytes
unfolding join_from
join args = join_from [] false args

-- `c` in front of what is left of the path.
abbrev keep : ℕ → Bytes → Bytes
keep c [] = if c == slash then [] else c ∷ []
keep c (d ∷ path) = c ∷ d ∷ path

abbrev before : ℕ → Bytes → Option (Bytes × Bytes) → Option (Bytes × Bytes)
before c path (some (dir, base)) = some (c ∷ dir, base)
before c path none = if c == slash then some ([], path) else none

abbrev root_if_empty : Bytes → Bytes
root_if_empty [] = slash ∷ []
root_if_empty (c ∷ dir) = c ∷ dir

-- The path without the separators at its end.
unfoldable pub without_last_seps : Bytes → Bytes
without_last_seps [] = []
without_last_seps (c ∷ path) = keep c (without_last_seps path)

-- The text in front of the last separator, and behind it.
unfoldable pub last_sep : Bytes → Option (Bytes × Bytes)
last_sep [] = none
last_sep (c ∷ path) = before c path (last_sep path)

-- What the pattern `^(.*)/[^/]+[/]*$` captures, and `^.*/([^/]+)[/]*$`: `.*` is greedy, so the
-- separator is the last one that no separators alone follow.
unfoldable pub match_last : Bytes → Option (Bytes × Bytes)
unfolding without_last_seps last_sep
match_last path = last_sep (without_last_seps path)

unfoldable pub dirname : Bytes → Bytes
unfolding match_last
dirname path = elim (match_last path) [ none ↦ b'.' ∷ [] | some (dir, base) ↦ root_if_empty dir ]

unfoldable pub basename : Bytes → Bytes
unfolding match_last
basename path = elim (match_last path) [ none ↦ path | some (dir, base) ↦ base ]
