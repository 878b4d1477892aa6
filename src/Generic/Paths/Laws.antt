-- ===== src/Generic/Paths/Laws.antt =====
-- generic/e2lib.lua: joining paths, and taking them apart again.
use e2factory.Common.{
  ℕ, ◌≡◌, ◌≢◌, refl, sym, ◌∙◌, Bool, true, false, not, ◌&&◌, ◌==◌, none, some, List, [], ◌∷◌, ◌++◌,
  Bytes, bytes_eq, if◌then◌else◌, arith, append_assoc, append-nil,
}
use e2factory.Generic.Paths.{
  slash, ends_in_sep, is_sep, separator, not_empty, join_from, join, without_last_seps, last_sep,
  match_last, dirname, basename,
}

abbrev pub no_sep : Bytes → Bool
no_sep [] = true
no_sep (c ∷ path) = not (c == slash) && no_sep path

-- A name without separators.
abbrev pub is_name : Bytes → Bool
is_name name = not_empty name && no_sep name

abbrev pub AllNames : List Bytes → Type 0
AllNames [] = Unit
AllNames (name ∷ names) = (is_name name ≡ true) × AllNames names

abbrev first : ℕ → List Bytes → List Bytes
first c [] = []
first c (name ∷ names) = if c == slash then [] ∷ name ∷ names else (c ∷ name) ∷ names

-- The components of a path, by its separators.
unfoldable pub split : Bytes → List Bytes
split [] = [] ∷ []
split (c ∷ path) = first c (split path)

ends_in_sep-append : (a b : Bytes) → not_empty b ≡ true → ends_in_sep (a ++ b) ≡ ends_in_sep b
unfolding ends_in_sep not_empty
ends_in_sep-append [] b h = refl
ends_in_sep-append (c ∷ []) [] h = cc
ends_in_sep-append (c ∷ []) (d ∷ b) h = refl
ends_in_sep-append (c ∷ e ∷ a) b h = ends_in_sep-append (e ∷ a) b h

no_sep-ends : (a : Bytes) → no_sep a ≡ true → ends_in_sep a ≡ false
unfolding ends_in_sep
no_sep-ends [] h = refl
no_sep-ends (c ∷ []) h = ground (arith, h)
no_sep-ends (c ∷ d ∷ a) h = no_sep-ends (d ∷ a) (ground (arith, h))

no_sep-is_sep : (a : Bytes) → no_sep a ≡ true → is_sep a ≡ false
unfolding is_sep bytes_eq
no_sep-is_sep [] h = refl
no_sep-is_sep (c ∷ a) h = ground (arith, h)

name-full : (name : Bytes) → is_name name ≡ true → not_empty name ≡ true
name-full name h = ground (arith, h)

name-plain : (name : Bytes) → is_name name ≡ true → no_sep name ≡ true
name-plain name h = ground (arith, h)

head-plain : (c : ℕ) (a : Bytes) → no_sep (c ∷ a) ≡ true → (c == slash) ≡ false
head-plain c a h = ground (arith, h)

-- A separator and a name, again and again.
abbrev trail : List Bytes → Bytes
trail [] = []
trail (name ∷ names) = slash ∷ name ++ trail names

join_from-trail :
    (path : Bytes) (names : List Bytes)
    → ends_in_sep path ≡ false
    → AllNames names
    → join_from path true names ≡ path ++ trail names
unfolding join_from separator
join_from-trail path [] open_end all = sym (append-nil path)
join_from-trail path (name ∷ names) open_end (here, all) =
    let full = name-full name here in
    let plain = name-plain name here in
    let last =
      ends_in_sep-append path (slash ∷ name) refl
      ∙ ends_in_sep-append (slash ∷ []) name full
      ∙ no_sep-ends name plain in
    rw (open_end, no_sep-is_sep name plain, full, append_assoc path (slash ∷ []) name)
      (join_from-trail (path ++ slash ∷ name) names last all
        ∙ append_assoc path (slash ∷ name) (trail names))

split-append :
    (a w h : Bytes) (t : List Bytes)
    → no_sep a ≡ true
    → split w ≡ h ∷ t
    → split (a ++ w) ≡ (a ++ h) ∷ t
unfolding split
split-append [] w h t plain e = e
split-append (c ∷ a) w h t plain e =
    rw (split-append a w h t (ground (arith, plain)) e, head-plain c a plain) refl

split-trail : (names : List Bytes) → AllNames names → split (trail names) ≡ [] ∷ names
unfolding split
split-trail [] all = refl
split-trail (name ∷ names) (here, all) =
    let rest =
      split-append name (trail names) [] names (name-plain name here) (split-trail names all) in
    rw (rest, append-nil name) refl

-- Names that are not empty and have no separators come back in their order when they are joined and
-- cut at the separators.
pub split-join :
    (name : Bytes) (names : List Bytes)
    → is_name name ≡ true
    → AllNames names
    → split (join (name ∷ names)) ≡ name ∷ names
unfolding join join_from separator
split-join name names here all =
    let plain = name-plain name here in
    let rest = split-append name (trail names) [] names plain (split-trail names all) in
    rw (name-full name here, join_from-trail name names (no_sep-ends name plain) all)
      (rest ∙ rw append-nil refl)

-- If a path that does not end in a separator, and is not empty, is joined with one that starts with
-- a separator and goes on, another separator is put between them.
pub join-absolute :
    (a x : Bytes)
    → a ≢ []
    → x ≢ []
    → ends_in_sep a ≡ false
    → join (a ∷ (slash ∷ x) ∷ []) ≡ a ++ slash ∷ slash ∷ x
unfolding join join_from separator is_sep bytes_eq not_empty
join-absolute [] x some_a some_x open_end = absurd (some_a refl)
join-absolute (c ∷ a) [] some_a some_x open_end = absurd (some_x refl)
join-absolute (c ∷ a) (d ∷ x) some_a some_x open_end =
    rw open_end (append_assoc (c ∷ a) (slash ∷ []) (slash ∷ d ∷ x))

without_last_seps-open : (p : Bytes) → ends_in_sep p ≡ false → without_last_seps p ≡ p
unfolding without_last_seps ends_in_sep
without_last_seps-open [] h = refl
without_last_seps-open (c ∷ []) h = rw h refl
without_last_seps-open (c ∷ d ∷ p) h = rw (without_last_seps-open (d ∷ p) h) refl

last_sep-none : (b : Bytes) → no_sep b ≡ true → last_sep b ≡ none
unfolding last_sep
last_sep-none [] h = refl
last_sep-none (c ∷ b) h = rw (last_sep-none b (ground (arith, h)), head-plain c b h) refl

last_sep-append : (d b : Bytes) → no_sep b ≡ true → last_sep (d ++ slash ∷ b) ≡ some (d, b)
unfolding last_sep
last_sep-append [] b h = rw (last_sep-none b h) refl
last_sep-append (c ∷ d) b h = rw (last_sep-append d b h) refl

match_last-append : (d b : Bytes) → is_name b ≡ true → match_last (d ++ slash ∷ b) ≡ some (d, b)
unfolding match_last not_empty
match_last-append d b name =
    let last =
      ends_in_sep-append d (slash ∷ b) refl
      ∙ ends_in_sep-append (slash ∷ []) b (name-full b name)
      ∙ no_sep-ends b (name-plain b name) in
    rw (without_last_seps-open (d ++ slash ∷ b) last) (last_sep-append d b (name-plain b name))

dirname-append :
    (d b : Bytes) → not_empty d ≡ true → is_name b ≡ true → dirname (d ++ slash ∷ b) ≡ d
unfolding dirname not_empty
dirname-append [] b some_d name = cc
dirname-append (c ∷ d) b some_d name = rw (match_last-append (c ∷ d) b name, dirname) refl

basename-append : (d b : Bytes) → is_name b ≡ true → basename (d ++ slash ∷ b) ≡ b
unfolding basename
basename-append d b name = rw (match_last-append d b name, basename) refl

join-two :
    (d b : Bytes)
    → not_empty d ≡ true
    → ends_in_sep d ≡ false
    → is_name b ≡ true
    → join (d ∷ b ∷ []) ≡ d ++ slash ∷ b
unfolding join join_from separator
join-two d b some_d open_end name =
    rw (some_d, open_end, no_sep-is_sep b (name-plain b name)) (append_assoc d (slash ∷ []) b)

-- The directory and the name that a path is joined from come back from it, if the directory is not
-- empty and does not end in a separator, and the name is not empty and has no separator.
pub dirname-join :
    (d b : Bytes)
    → not_empty d ≡ true
    → ends_in_sep d ≡ false
    → is_name b ≡ true
    → (dirname (join (d ∷ b ∷ [])) ≡ d) × (basename (join (d ∷ b ∷ [])) ≡ b)
dirname-join d b some_d open_end name =
    rw (join-two d b some_d open_end name)
      (dirname-append d b some_d name, basename-append d b name)
