-- ===== src/Generic/Modes.antt =====
-- generic/e2lib.lua: `parse_mode`, file modes as three octal digits or as `ugo+rwx`. Lua's
-- `tonumber` is a parameter; a mode of more than one character is only tested for being a number.
pub mod Laws
pub mod Symbolic
use e2factory.Common.{
  ℕ, ◌+◌, ◌-◌, ◌*◌, ◌^◌, Bool, true, false, not, ◌&&◌, ◌||◌, ◌==◌, ltb, leb, Option, none, some,
  List, [], ◌∷◌, Bytes, length, if◌then◌else◌,
}

-- `%s`, in the C locale; `gmatch(modestring, "%S")` gives the other characters.
unfoldable pub is_space : ℕ → Bool
is_space c = c == 32 || leb 9 c && leb c 13

unfoldable pub non_spaces : Bytes → Bytes
unfolding is_space
non_spaces [] = []
non_spaces (c ∷ text) = let rest = non_spaces text in if is_space c then rest else c ∷ rest

-- The number; the errors that are returned; `raised` where nil is compared with 7.
pub data Parsed (A : Type 0) : Type 0 where
  ok : A → Parsed A
  not_octal not_three no_class unknown_permission unknown_operator raised : Parsed A

-- The permissions of one class.
pub record Perms : Type 0 where
  pub r : Bool
  pub w : Bool
  pub x : Bool

abbrev pub cleared : Perms
cleared = record { r = false; w = false; x = false }

-- A value for each class.
pub record Classes (A : Type 0) : Type 0 where
  pub user : A
  pub group : A
  pub other : A

-- The state function that takes the next character.
pub data Func : Type 0 where
  class permissions : Func

pub record Machine : Type 0 where
  pub perm : Classes Perms
  pub class_name : Classes Bool
  pub operator : Option ℕ
  pub func : Func

abbrev pub nobody : Classes Bool
nobody = record { user = false; group = false; other = false }

unfoldable pub start : Machine
start = record {
  perm = record { user = cleared; group = cleared; other = cleared };
  class_name = nobody;
  operator = none;
  func = class;
}

-- A change of the permissions of each class that is named.
unfoldable pub for_named : (Perms → Perms) → Machine → Classes Perms
for_named f m = record {
  user = if m.class_name.user then f m.perm.user else m.perm.user;
  group = if m.class_name.group then f m.perm.group else m.perm.group;
  other = if m.class_name.other then f m.perm.other else m.perm.other;
}

unfoldable pub put : ℕ → Bool → Perms → Perms
put char bit p =
    if char == b'r'
    then record p { r = bit }
    else if char == b'w'
    then record p { w = bit }
    else record p { x = bit }

-- The state function `permissions`; it is entered behind an operator only.
unfoldable pub step_permissions : Machine → ℕ → Parsed Machine
unfolding for_named put
step_permissions m c =
    let char = if c == b'X' then b'x' else c in
    if char == b','
    then ok (record m { class_name = nobody; operator = none; func = class })
    else if not (char == b'w' || char == b'r' || char == b'x')
    then unknown_permission
    else elim m.operator [
      | none ↦ unknown_operator
      | some operator ↦ ok (record m { perm = for_named (put char (not (operator == b'-'))) m })
    ]

unfoldable pub step_operator : Machine → ℕ → Parsed Machine
unfolding for_named
step_operator m char =
    if char == b'='
    then ok
        (record m { perm = for_named (λ p. cleared) m; operator = some char; func = permissions })
    else if char == b'-' || char == b'+'
    then ok (record m { operator = some char; func = permissions })
    else unknown_operator

unfoldable pub step_class : Machine → ℕ → Parsed Machine
unfolding step_operator
step_class m char =
    if char == b'u'
    then ok (record m { class_name = record m.class_name { user = true } })
    else if char == b'g'
    then ok (record m { class_name = record m.class_name { group = true } })
    else if char == b'o'
    then ok (record m { class_name = record m.class_name { other = true } })
    else if char == b'a'
    then ok (record m { class_name = record { user = true; group = true; other = true } })
    else if not (m.class_name.user || m.class_name.group || m.class_name.other)
    then no_class
    else step_operator m char

infixl 5 ◌>>=◌
abbrev pub ◌>>=◌ : {A B : Type 0} → Parsed A → (A → Parsed B) → Parsed B
ok a >>= f = f a
not_octal >>= f = not_octal
not_three >>= f = not_three
no_class >>= f = no_class
unknown_permission >>= f = unknown_permission
unknown_operator >>= f = unknown_operator
raised >>= f = raised

unfoldable pub step : Machine → ℕ → Parsed Machine
unfolding step_class step_permissions
step m char = elim m.func [ class ↦ step_class m char | permissions ↦ step_permissions m char ]

unfoldable pub run : Machine → Bytes → Parsed Machine
unfolding step
run m [] = ok m
run m (c ∷ chars) = step m c >>= λ next. run next chars

abbrev pub bit : Bool → ℕ
bit b = if b then 1 else 0

abbrev pub octal_of : Perms → ℕ
octal_of p = bit p.r * 4 + bit p.w * 2 + bit p.x

-- `out_user + out_group + out_other`
abbrev pub mode_of : Classes Perms → ℕ
mode_of perm = octal_of perm.user * 64 + octal_of perm.group * 8 + octal_of perm.other

module _ (tonumber : Bytes → Option ℕ) where
  -- The loop over the digits; `index` is at most 2, since there are three characters.
  unfoldable pub digits : ℕ → ℕ → Bytes → Parsed ℕ
  digits index out [] = ok out
  digits index out (c ∷ chars) = elim (tonumber (c ∷ [])) [
    | none ↦ raised
    | some mode ↦
        if ltb 7 mode then not_octal else digits (index + 1) (out + mode * 8 ^ (2 - index)) chars
  ]

  unfoldable pub parse_mode : Bytes → Parsed ℕ
  unfolding digits non_spaces run start
  parse_mode modestring = elim (tonumber modestring) [
    | some n ↦ if length modestring == 3 then digits 0 0 (non_spaces modestring) else not_three
    | none ↦ run start (non_spaces modestring) >>= λ m. ok (mode_of m.perm)
  ]
