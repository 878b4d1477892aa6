-- ===== src/Le2lib/Directories.antt =====
-- generic/le2lib.c: `get_directory` and `do_closefrom`, the two loops over a directory.
pub mod Listing
pub mod Closing
use e2factory.Common.{
  ℕ, zero, suc, ◌+◌, ◌-◌, ◌*◌, Bool, true, false, not, Option, none, some, List, [], ◌∷◌, ◌++◌,
  Bytes, String, codes, bytes_eq, ℤ, pos, negative, nonzero, ltb, ltb_ℤ, eq_ℤ, leb, ◌==◌, ◌&&◌,
  ◌||◌, if◌then◌else◌,
}
use e2factory.Lua.{
  Value, boolean, number, string, table, Fields, end, field, Api, M, ◌>>=◌, ◌>>◌, pure, return,
  when, push, sys, look, lua_l_checkstring, lua_l_checkinteger, second_flag, fail_with, return_true,
}
use e2factory.Le2lib.Posix.{Posix, Dir, fail_errno, strerror_errno}

-- `strcmp(name, ".") == 0 || strcmp(name, "..") == 0`
abbrev pub is_dots : Bytes → Bool
is_dots name = bytes_eq name (codes ".") || bytes_eq name (codes "..")

-- `name[0] != '.'`
abbrev pub visible : Bytes → Bool
visible [] = true
visible (ch ∷ rest) = not (ch == b'.')

-- The body of the loop: which names are listed, at the index `i`.
unfoldable pub list_names : Bool → ℕ → List Bytes → Fields
list_names df i [] = end
list_names df i (name ∷ names) =
    let rest = list_names df i names in
    let listed = field (number (pos i)) (string name) (list_names df (i + 1) names) in
    if is_dots name then rest else if df || visible name then listed else rest

-- `atoi`, on a text that begins with digits. Overflow, undefined in C, does not wrap.
unfoldable pub atoi_from : ℕ → Bytes → ℕ
atoi_from acc [] = acc
atoi_from acc (ch ∷ rest) =
    let more = atoi_from (acc * 10 + (ch - b'0')) rest in
    if leb b'0' ch && leb ch b'9' then more else acc

unfoldable pub atoi : Bytes → ℕ
atoi text = atoi_from 0 text

-- `name[0] < '0' || name[0] > '9'`
abbrev pub no_digit : Bytes → Bool
no_digit [] = true
no_digit (ch ∷ rest) = ltb ch b'0' || ltb b'9' ch

module _ (p : Posix) where
  -- The loop: the entries that are no number, lie below `from` or are the stream itself stay.
  unfoldable pub close_names : ℤ → ℤ → List Bytes → p.State → p.State
  close_names from myself [] s = s
  close_names from myself (name ∷ names) s =
      let fd = pos (atoi name) in
      let skip = no_digit name || (ltb_ℤ fd from || eq_ℤ fd myself) in
      close_names from myself names (if skip then s else (p.close fd s).1)

module _ (api : Api) (p : Posix) where
  unfoldable pub get_directory : M p.State (Unit {0})
  get_directory = do
    path ← lua_l_checkstring api 1
    df ← second_flag api
    r ← sys (p.opendir path)
    dir ← elim r [ none ↦ fail_errno p | some d ↦ pure d ]
    finish dir (list_names df 1 dir.names) dir.failure
    where
      finish : Dir → Fields → Option ℕ → M p.State (Unit {0})
      finish dir listing none = do
        push (table listing)
        sys (λ s. (tt {0}, p.closedir dir s))
        return 1
      finish dir listing (some e) = do
        push (boolean false)
        push (string (p.strerror e))
        sys (λ s. (tt {0}, p.closedir dir s))
        return 2

  unfoldable pub do_closefrom : M p.State (Unit {0})
  do_closefrom = do
    from ← lua_l_checkinteger api 1
    r ← sys (p.opendir (codes "/proc/self/fd"))
    d ← elim r [ none ↦ fail_errno p | some d ↦ pure d ]
    myself ← sys (p.dirfd d)
    e ← look (strerror_errno p)
    when (negative myself) (sys (λ s. (tt {0}, p.closedir d s)) >> fail_with e)
    sys (λ s. (tt {0}, close_names p from myself d.names s))
    sys (λ s. (tt {0}, p.closedir d s))
    return_true
