-- ===== src/Le2lib/Directories/Listing.antt =====
-- generic/le2lib.c, `get_directory`: which names are listed, and under which keys.
use e2factory.Common.{
  ℕ, ◌+◌, ◌≡◌, refl, Bool, not, ◌||◌, ◌&&◌, List, [], ◌∷◌, Bytes, pos, arith, if◌then◌else◌,
}
use e2factory.Lua.{number, string, Fields, end, field}
use e2factory.Le2lib.Directories.{is_dots, visible, list_names}

-- The names that a listing keeps: never "." and "..", and hidden ones only on request.
pub keep : Bool → List Bytes → List Bytes
keep df [] = []
keep df (name ∷ names) =
    let rest = keep df names in
    if not (is_dots name) && (df || visible name) then name ∷ rest else rest

-- A Lua array of strings, from the key `i` on.
abbrev pub strings_from : ℕ → List Bytes → Fields
strings_from i [] = end
strings_from i (name ∷ names) = field (number (pos i)) (string name) (strings_from (i + 1) names)

-- The loop of `get_directory` lists exactly the kept names, in the order of the directory, under
-- the keys 1, 2, … with no gap.
pub list_names-keep :
    (df : Bool) (i : ℕ) (names : List Bytes)
    → list_names df i names ≡ strings_from i (keep df names)
unfolding list_names keep
list_names-keep df i [] = refl
list_names-keep df i (name ∷ names) =
    ground (arith, list_names-keep df i names, list_names-keep df (i + 1) names)
