-- ===== src/Local/Digest.antt =====
-- local/digest.lua: files of checksums, one line for each: the parser, which goes through a line
-- character by character, and the writer. The length of a checksum tells its type.
pub mod Lines
pub mod Written
pub mod Exact
use e2factory.Common.{
  ℕ, ◌+◌, Bool, true, false, not, ◌&&◌, ◌||◌, ◌==◌, leb, Option, none, some, List, [], ◌∷◌, ◌++◌,
  Bytes, length, if◌then◌else◌,
}

abbrev pub digest_md5 : ℕ
digest_md5 = 1

abbrev pub digest_sha1 : ℕ
digest_sha1 = 2

abbrev pub digest_sha256 : ℕ
digest_sha256 = 3

-- The checksum is any string in an entry that `digest.checksum` has not filled.
pub record Entry : Type 0 where
  pub digest : ℕ
  pub checksum : Bytes
  pub name : Bytes
  pub name2check : Option Bytes

-- What is wrong with a line, a file or a table; positions start at 1.
pub data Failure : Type 0 where
  escaped incomplete unknown_length no_filename under_terminated : Failure
  unexpected : ℕ → ℕ → Failure
  in_line : ℕ → Failure → Failure
  empty_table mixture : Failure
  unknown_digest unknown_type wrong_length no_name : ℕ → Failure

pub data Parsed (A : Type 0) : Type 0 where
  ok : A → Parsed A
  error : Failure → Parsed A

infixl 5 ◌>>=◌
abbrev pub ◌>>=◌ : {A B : Type 0} → Parsed A → (A → Parsed B) → Parsed B
ok a >>= f = f a
error e >>= f = error e

unfoldable pub ishex : ℕ → Bool
ishex c = leb b'0' c && leb c b'9' || leb b'a' c && leb c b'f' || leb b'A' c && leb c b'F'

-- MD5_LEN, SHA1_LEN and SHA256_LEN
unfoldable pub known_length : ℕ → Bool
known_length len = len == 32 || len == 40 || len == 64

pub data LineState : Type 0 where
  checksum space filename : LineState

-- `parse_line` behind its loop, in the state "finish".
unfoldable pub finish : Bytes → Bytes → Parsed (Bytes × Bytes)
unfolding known_length
finish cs [] = if known_length (length cs) then error no_filename else error unknown_length
finish cs (c ∷ fn) = if known_length (length cs) then ok (cs, c ∷ fn) else error unknown_length

-- The loop of `parse_line` from position `pos` on.
unfoldable pub parse_from : LineState → ℕ → Bytes → Bytes → Bytes → Parsed (Bytes × Bytes)
unfolding ishex finish
parse_from state pos cs fn [] = error incomplete
parse_from checksum pos cs fn (c ∷ line) =
    let more = parse_from checksum (pos + 1) (cs ++ c ∷ []) fn line in
    let next = parse_from space (pos + 1) cs fn line in
    if pos == 1 && c == b'\\'
    then error escaped
    else if ishex c
    then more
    else if c == b' '
    then next
    else error (unexpected c pos)
parse_from space pos cs fn (c ∷ line) =
    let next = parse_from filename (pos + 1) cs fn line in
    if c == b' ' then next else error (unexpected c pos)
parse_from filename pos cs fn (c ∷ line) =
    let more = parse_from filename (pos + 1) cs (fn ++ c ∷ []) line in
    if c == b'\n' then finish cs fn else more

unfoldable pub parse_line : Bytes → Parsed (Bytes × Bytes)
unfolding parse_from
parse_line line = parse_from checksum 1 [] [] line

unfoldable pub type_of_length : ℕ → Option ℕ
type_of_length len =
    if len == 32
    then some digest_md5
    else if len == 40
    then some digest_sha1
    else if len == 64
    then some digest_sha256
    else none

-- `new_entry`, for a line of a file.
unfoldable pub add_entry : ℕ → List Entry → Parsed (Bytes × Bytes) → Parsed (List Entry)
unfolding type_of_length
add_entry linenr dt (error e) = error (in_line linenr e)
add_entry linenr dt (ok (cs, fn)) = elim (type_of_length (length cs)) [
  | none ↦ error (unknown_digest linenr)
  | some type ↦
      ok (dt ++ record { digest = type; checksum = cs; name = fn; name2check = none } ∷ [])
]

-- `c` is the first character of what is cut off next.
abbrev pub longer : ℕ → List Bytes → Bytes → List Bytes × Bytes
longer c [] rest = ([], c ∷ rest)
longer c (line ∷ lines) rest = ((c ∷ line) ∷ lines, rest)

-- The lines that `string.find` cuts off, each with its newline, and what is left behind the last.
unfoldable pub cut_lines : Bytes → List Bytes × Bytes
cut_lines [] = ([], [])
cut_lines (c ∷ text) =
    let (lines, rest) = cut_lines text in
    if c == b'\n' then ((c ∷ []) ∷ lines, rest) else longer c lines rest

-- The loop of `parsestring`.
unfoldable pub parse_lines : ℕ → List Entry → List Bytes → Bytes → Parsed (List Entry)
unfolding parse_line add_entry
parse_lines linenr dt [] [] = ok dt
parse_lines linenr dt [] (c ∷ rest) = error under_terminated
parse_lines linenr dt (line ∷ lines) rest =
    add_entry linenr dt (parse_line line) >>= λ longer. parse_lines (linenr + 1) longer lines rest

unfoldable pub parsestring : Bytes → Parsed (List Entry)
unfolding cut_lines parse_lines
parsestring text = let (lines, rest) = cut_lines text in parse_lines 1 [] lines rest

abbrev pub has_length : ℕ → ℕ → Bool
has_length type len =
    type == digest_md5 && len == 32
    || type == digest_sha1 && len == 40
    || type == digest_sha256 && len == 64

-- The loop of `sanity_check`; `pos` counts the entries, `digest_type` is that of the first.
unfoldable pub sane_from : ℕ → ℕ → List Entry → Parsed (List Entry)
sane_from pos digest_type [] = ok []
sane_from pos digest_type (e ∷ dt) =
    let rest = sane_from (pos + 1) digest_type dt in
    if not (e.digest == digest_md5 || e.digest == digest_sha1 || e.digest == digest_sha256)
    then error (unknown_type pos)
    else if not (digest_type == e.digest)
    then error mixture
    else if not (has_length e.digest (length e.checksum))
    then error (wrong_length pos)
    else if length e.name == 0
    then error (no_name pos)
    else rest

unfoldable pub sanity_check : List Entry → Parsed (List Entry)
unfolding sane_from
sanity_check [] = error empty_table
sanity_check (e ∷ dt) = sane_from 1 e.digest (e ∷ dt)

-- `string.format` is Lua's: what its "%s" makes of a string is the parameter `format_s`.
module _ (format_s : Bytes → Bytes) where
  -- `string.format("%s  %s\n", entry.checksum, entry.name)`
  unfoldable pub line_of : Entry → Bytes
  line_of e = format_s e.checksum ++ b' ' ∷ b' ' ∷ format_s e.name ++ b'\n' ∷ []

  unfoldable pub text_of : List Entry → Bytes
  unfolding line_of
  text_of [] = []
  text_of (e ∷ dt) = line_of e ++ text_of dt

  -- The text that `write` hands to eio.file_write.
  unfoldable pub written : List Entry → Parsed Bytes
  unfolding sanity_check text_of
  written dt = sanity_check dt >>= λ _. ok (text_of dt)
