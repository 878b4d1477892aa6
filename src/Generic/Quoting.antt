-- ===== src/Generic/Quoting.antt =====
-- generic/e2lib.lua: `shquote`, which makes a word of the shell of any string, and the quoting
-- rules of the shell that it stands on (POSIX, 2.2): between two single quotes each character
-- stands for itself, between two double quotes each that is not `$`, a backquote, a backslash or
-- `"`.
use e2factory.Common.{
  ℕ, ◌≡◌, refl, ap, sym, ◌||◌, ◌==◌, Option, none, some, inl, inr, Bool-cases, ==_iff, [], ◌∷◌,
  ◌++◌, Bytes, if◌then◌else◌,
}

-- `'"'"'`
abbrev quoted_quote : Bytes
quoted_quote = b'\'' ∷ b'"' ∷ b'\'' ∷ b'"' ∷ b'\'' ∷ []

-- `string.gsub(str, "'", "'\"'\"'")`
unfoldable pub gsub_quote : Bytes → Bytes
gsub_quote [] = []
gsub_quote (c ∷ str) =
    let rest = gsub_quote str in if c == b'\'' then quoted_quote ++ rest else c ∷ rest

unfoldable pub shquote : Bytes → Bytes
unfolding gsub_quote
shquote str = b'\'' ∷ gsub_quote str ++ b'\'' ∷ []

-- Where the shell stands in a word.
pub data Quotes : Type 0 where
  bare single double : Quotes

abbrev prepend : ℕ → Option Bytes → Option Bytes
prepend c none = none
prepend c (some text) = some (c ∷ text)

-- What the shell makes of a word: its text without the quotes, `none` where the word ends early,
-- does not end, or holds anything but quotes outside of quotes or what is expanded inside.
unfoldable pub unquote : Quotes → Bytes → Option Bytes
unquote bare [] = some []
unquote single [] = none
unquote double [] = none
unquote bare (c ∷ word) =
    let in_single = unquote single word in
    let in_double = unquote double word in
    if c == b'\'' then in_single else if c == b'"' then in_double else none
unquote single (c ∷ word) =
    let closed = unquote bare word in
    let more = prepend c (unquote single word) in if c == b'\'' then closed else more
unquote double (c ∷ word) =
    let closed = unquote bare word in
    let more = prepend c (unquote double word) in
    if c == b'"' then closed else if c == b'$' || c == b'`' || c == b'\\' then none else more

unquote-gsub_quote : (str : Bytes) → unquote single (gsub_quote str ++ b'\'' ∷ []) ≡ some str
unfolding gsub_quote unquote
unquote-gsub_quote [] = refl
unquote-gsub_quote (c ∷ str) = elim (Bool-cases (c == b'\'')) [
  | inl quote ↦
      rw (quote, unquote-gsub_quote str) (ap (λ z. some (z ∷ str)) (sym ((==_iff c b'\'').0 quote)))
  | inr other ↦ rw (other, unquote-gsub_quote str, other) refl
]

-- The shell reads the quoted string as the string, whatever characters it holds.
pub unquote-shquote : (str : Bytes) → unquote bare (shquote str) ≡ some str
unfolding shquote unquote
unquote-shquote str = unquote-gsub_quote str
