-- ===== src/Generic/Modes/Symbolic.antt =====
-- generic/e2lib.lua: a mode as classes, `=` and permissions.
use e2factory.Common.{
  ℕ, ◌+◌, ◌*◌, ◌≡◌, refl, ap, ◌∙◌, Bool, true, false, not, ◌&&◌, ◌||◌, ◌==◌, Option, none, some, [],
  ◌∷◌, ◌++◌, Bytes, if◌then◌else◌, arith,
}
use e2factory.Generic.Modes.{
  non_spaces, is_space, Parsed, ok, Perms, Classes, cleared, Machine, class, permissions, start,
  nobody, for_named, put, step, step_class, step_permissions, run, bit, octal_of, parse_mode, ◌>>=◌,
}

abbrev pub has : ℕ → Bytes → Bool
has c [] = false
has c (d ∷ text) = d == c || has c text

abbrev pub all_classes : Bytes → Bool
all_classes [] = true
all_classes (c ∷ cs) = (c == b'u' || c == b'g' || c == b'o' || c == b'a') && all_classes cs

abbrev pub all_perms : Bytes → Bool
all_perms [] = true
all_perms (c ∷ ps) = (c == b'r' || c == b'w' || c == b'x' || c == b'X') && all_perms ps

-- The classes of `k` and those that `cs` names.
abbrev named : Classes Bool → Bytes → Classes Bool
named k cs = record {
  user = k.user || (has b'u' cs || has b'a' cs);
  group = k.group || (has b'g' cs || has b'a' cs);
  other = k.other || (has b'o' cs || has b'a' cs);
}

abbrev granted : Bytes → Perms → Perms
granted ps p = record {
  r = p.r || has b'r' ps;
  w = p.w || has b'w' ps;
  x = p.x || (has b'x' ps || has b'X' ps);
}

abbrev naming : Classes Perms → Classes Bool → Machine
naming perm k = record { perm = perm; class_name = k; operator = none; func = class }

step-class :
    (c : ℕ) (perm : Classes Perms) (k : Classes Bool)
    → all_classes (c ∷ []) ≡ true
    → step (naming perm k) c ≡ ok (naming perm (named k (c ∷ [])))
unfolding step step_class
step-class c perm k h = ground (arith, h)

named-cons :
    (k : Classes Bool) (c : ℕ) (cs : Bytes) → named (named k (c ∷ [])) cs ≡ named k (c ∷ cs)
named-cons k c cs = ground arith

run-classes :
    (cs rest : Bytes) (perm : Classes Perms) (k : Classes Bool)
    → all_classes cs ≡ true
    → run (naming perm k) (cs ++ rest) ≡ run (naming perm (named k cs)) rest
unfolding run
run-classes [] rest perm k h = ap (λ k. run (naming perm k) rest) (ground arith)
run-classes (c ∷ cs) rest perm k h =
    ap (λ (s : Parsed Machine). s >>= λ next. run next (cs ++ rest))
      (step-class c perm k (ground (arith, h)))
    ∙ run-classes cs rest perm (named k (c ∷ [])) (ground (arith, h))
    ∙ ap (λ k. run (naming perm k) rest) (named-cons k c cs)

abbrev granting : Classes Perms → Classes Bool → Machine
granting perm k = record { perm = perm; class_name = k; operator = some b'='; func = permissions }

abbrev given : Classes Bool → Bytes → Classes Perms → Classes Perms
given k ps perm = record {
  user = if k.user then granted ps perm.user else perm.user;
  group = if k.group then granted ps perm.group else perm.group;
  other = if k.other then granted ps perm.other else perm.other;
}

put-granted :
    (c : ℕ) (p : Perms)
    → all_perms (c ∷ []) ≡ true
    → put (if c == b'X' then b'x' else c) true p ≡ granted (c ∷ []) p
unfolding put
put-granted c p h = ground (arith, h)

tests-pass : (c : ℕ) → all_perms (c ∷ []) ≡ true → ((if c == b'X' then b'x' else c) == b',') ≡ false
tests-pass c h = ground (arith, h)

letters-pass :
    (c : ℕ)
    → all_perms (c ∷ []) ≡ true
    → (let char = if c == b'X' then b'x' else c in
        not (char == b'w' || char == b'r' || char == b'x'))
      ≡ false
letters-pass c h = ground (arith, h)

for_named-given :
    (c : ℕ) (perm : Classes Perms) (k : Classes Bool)
    → all_perms (c ∷ []) ≡ true
    → for_named (put (if c == b'X' then b'x' else c) true) (granting perm k) ≡ given k (c ∷ []) perm
unfolding for_named
for_named-given c perm k h = λ i. record {
  user = if k.user then put-granted c perm.user h i else perm.user;
  group = if k.group then put-granted c perm.group h i else perm.group;
  other = if k.other then put-granted c perm.other h i else perm.other;
}

step-permissions :
    (c : ℕ) (perm : Classes Perms) (k : Classes Bool)
    → all_perms (c ∷ []) ≡ true
    → step (granting perm k) c ≡ ok (granting (given k (c ∷ []) perm) k)
unfolding step step_permissions
step-permissions c perm k h =
    rw (tests-pass c h, letters-pass c h, step_permissions)
      (ap (λ p. ok (granting p k)) (for_named-given c perm k h))

granted-cons :
    (c : ℕ) (ps : Bytes) (p : Perms) → granted ps (granted (c ∷ []) p) ≡ granted (c ∷ ps) p
granted-cons c ps p = ground arith

granted_again :
    (chosen : Bool) (c : ℕ) (ps : Bytes) (p : Perms)
    → (let q = if chosen then granted (c ∷ []) p else p in if chosen then granted ps q else q)
      ≡ (if chosen then granted (c ∷ ps) p else p)
granted_again true c ps p = granted-cons c ps p
granted_again false c ps p = refl

given-cons :
    (k : Classes Bool) (c : ℕ) (ps : Bytes) (perm : Classes Perms)
    → given k ps (given k (c ∷ []) perm) ≡ given k (c ∷ ps) perm
given-cons k c ps perm = λ i. record {
  user = granted_again k.user c ps perm.user i;
  group = granted_again k.group c ps perm.group i;
  other = granted_again k.other c ps perm.other i;
}

given-nil : (k : Classes Bool) (perm : Classes Perms) → perm ≡ given k [] perm
given-nil k perm = ground arith

run-permissions :
    (ps : Bytes) (perm : Classes Perms) (k : Classes Bool)
    → all_perms ps ≡ true
    → run (granting perm k) ps ≡ ok (granting (given k ps perm) k)
unfolding run
run-permissions [] perm k h = ap (λ p. ok (granting p k)) (given-nil k perm)
run-permissions (c ∷ ps) perm k h =
    ap (λ (s : Parsed Machine). s >>= λ next. run next ps)
      (step-permissions c perm k (ground (arith, h)))
    ∙ run-permissions ps (given k (c ∷ []) perm) k (ground (arith, h))
    ∙ ap (λ p. ok (granting p k)) (given-cons k c ps perm)

non_spaces-classes :
    (cs rest : Bytes) → all_classes cs ≡ true → non_spaces (cs ++ rest) ≡ cs ++ non_spaces rest
unfolding non_spaces is_space
non_spaces-classes [] rest h = refl
non_spaces-classes (c ∷ cs) rest h = ground (arith, h, non_spaces-classes cs rest)

non_spaces-perms : (ps : Bytes) → all_perms ps ≡ true → non_spaces ps ≡ ps
unfolding non_spaces is_space
non_spaces-perms [] h = refl
non_spaces-perms (c ∷ ps) h = ground (arith, h, non_spaces-perms ps)

-- The digit of the permissions `ps`, for a class that `cs` names.
abbrev pub digit : ℕ → Bytes → Bytes → ℕ
digit name cs ps =
    if has name cs || has b'a' cs
    then bit (has b'r' ps) * 4 + bit (has b'w' ps) * 2 + bit (has b'x' ps || has b'X' ps)
    else 0

abbrev blank : Classes Perms
blank = record { user = cleared; group = cleared; other = cleared }

cleared_twice : (chosen : Bool) → (if chosen then cleared else cleared) ≡ cleared
cleared_twice true = refl
cleared_twice false = refl

octal_of-given :
    (chosen : Bool) (ps : Bytes)
    → octal_of (if chosen then granted ps cleared else cleared) ≡ (
        if chosen
        then bit (has b'r' ps) * 4 + bit (has b'w' ps) * 2 + bit (has b'x' ps || has b'X' ps)
        else 0)
octal_of-given true ps = refl
octal_of-given false ps = refl

step-equals :
    (cs : Bytes)
    → (has b'u' cs || has b'g' cs || has b'o' cs || has b'a' cs) ≡ true
    → step (naming blank (named nobody cs)) b'=' ≡ ok (granting blank (named nobody cs))
unfolding step step_class for_named
step-equals cs some_class =
    let some_named : not (
          (has b'u' cs || has b'a' cs)
          || (has b'g' cs || has b'a' cs)
          || (has b'o' cs || has b'a' cs))
        ≡ false =
      ground (arith, some_class) in
    rw some_named (λ i. ok (
      granting
        (record {
          user = cleared_twice (has b'u' cs || has b'a' cs) i;
          group = cleared_twice (has b'g' cs || has b'a' cs) i;
          other = cleared_twice (has b'o' cs || has b'a' cs) i;
        })
        (named nobody cs)))

-- If a string is no number for tonumber, and is a few of the classes u, g, o and a (at least one),
-- `=`, and permissions among r, w, x and X, its mode has for each class that is named the
-- permissions that are given, and no others.
pub parse_mode-assign :
    (tonumber : Bytes → Option ℕ) (cs ps : Bytes)
    → tonumber (cs ++ b'=' ∷ ps) ≡ none
    → all_classes cs ≡ true
    → (has b'u' cs || has b'g' cs || has b'o' cs || has b'a' cs) ≡ true
    → all_perms ps ≡ true
    → parse_mode tonumber (cs ++ b'=' ∷ ps)
      ≡ ok (digit b'u' cs ps * 64 + digit b'g' cs ps * 8 + digit b'o' cs ps)
unfolding parse_mode start run
parse_mode-assign tonumber cs ps symbolic classes some_class perms =
    let cut : non_spaces (cs ++ b'=' ∷ ps) ≡ cs ++ b'=' ∷ ps =
      non_spaces-classes cs (b'=' ∷ ps) classes
      ∙ ap (λ t. cs ++ b'=' ∷ t) (non_spaces-perms ps perms) in
    let ends : run start (cs ++ b'=' ∷ ps)
        ≡ ok (granting (given (named nobody cs) ps blank) (named nobody cs)) =
      run-classes cs (b'=' ∷ ps) blank nobody classes
      ∙ ap (λ (s : Parsed Machine). s >>= λ next. run next ps) (step-equals cs some_class)
      ∙ run-permissions ps blank (named nobody cs) perms in
    rw (symbolic, cut, ends, parse_mode)
      (λ i. ok (
        octal_of-given (has b'u' cs || has b'a' cs) ps i * 64
        + octal_of-given (has b'g' cs || has b'a' cs) ps i * 8
        + octal_of-given (has b'o' cs || has b'a' cs) ps i))
