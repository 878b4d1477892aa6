-- ===== src/Local/Digest/Lines.antt =====
-- local/digest.lua: one line of a file of checksums.
use e2factory.Common.{
  ℕ, ◌+◌, ◌≡◌, refl, sym, ap, ◌∙◌, Bool, true, false, not, ◌&&◌, ◌==◌, List, [], ◌∷◌, ◌++◌, Bytes,
  length, arith, append_assoc, append-nil,
}
use e2factory.Local.Digest.{
  Entry, ok, ishex, known_length, finish, parse_from, checksum, space, filename, parse_line,
  line_of, cut_lines,
}

abbrev pub all_hex : Bytes → Bool
all_hex [] = true
all_hex (c ∷ cs) = ishex c && all_hex cs

-- A name in one line.
abbrev pub no_newline : Bytes → Bool
no_newline [] = true
no_newline (c ∷ fn) = not (c == b'\n') && no_newline fn

abbrev pub no_nul : Bytes → Bool
no_nul [] = true
no_nul (c ∷ s) = not (c == 0) && no_nul s

-- What Lua's manual says of "%s": a string without embedded zeros is inserted as it is.
abbrev pub Formats : (Bytes → Bytes) → Type 0
Formats format_s = (s : Bytes) → no_nul s ≡ true → format_s s ≡ s

-- A checksum, two spaces, a name and a newline.
abbrev pub plain_line : Entry → Bytes
plain_line e = e.checksum ++ b' ' ∷ b' ' ∷ e.name ++ b'\n' ∷ []

abbrev pub plain_text : List Entry → Bytes
plain_text [] = []
plain_text (e ∷ dt) = plain_line e ++ plain_text dt

-- A newline at the end, and no other.
abbrev pub is_line : Bytes → Bool
is_line [] = false
is_line (c ∷ []) = c == b'\n'
is_line (c ∷ d ∷ line) = not (c == b'\n') && is_line (d ∷ line)

parse_from-filename :
    (fn : Bytes) (pos : ℕ) (cs acc : Bytes)
    → no_newline fn ≡ true
    → parse_from filename pos cs acc (fn ++ b'\n' ∷ []) ≡ finish cs (acc ++ fn)
unfolding parse_from
parse_from-filename [] pos cs acc plain = ap (finish cs) (sym (append-nil acc))
parse_from-filename (c ∷ fn) pos cs acc plain = ground (
  arith,
  plain,
  parse_from-filename fn (pos + 1) cs (acc ++ c ∷ []),
  append_assoc acc (c ∷ []) fn,
)

parse_from-space :
    (pos : ℕ) (cs rest : Bytes)
    → parse_from space pos cs [] (b' ' ∷ rest) ≡ parse_from filename (pos + 1) cs [] rest
unfolding parse_from
parse_from-space pos cs rest = refl

-- The checksum is read up to the first space, in whatever position it starts.
parse_from-checksum :
    (cs : Bytes) (pos : ℕ) (acc rest : Bytes)
    → all_hex cs ≡ true
    → (next : ℕ) × (parse_from checksum pos acc [] (cs ++ b' ' ∷ rest)
        ≡ parse_from space next (acc ++ cs) [] rest)
unfolding parse_from ishex
parse_from-checksum [] pos acc rest hex = (pos + 1, ground (arith, append-nil acc))
parse_from-checksum (c ∷ cs) pos acc rest hex =
    let (next, ih) = parse_from-checksum cs (pos + 1) (acc ++ c ∷ []) rest (ground (arith, hex)) in
    (next, ground (arith, hex, ih, append_assoc acc (c ∷ []) cs))

finish-ok :
    (cs fn : Bytes)
    → known_length (length cs) ≡ true
    → (length fn == 0) ≡ false
    → finish cs fn ≡ ok (cs, fn)
unfolding finish
finish-ok cs [] known some_name = cc
finish-ok cs (c ∷ fn) known some_name = rw known refl

-- A checksum of hexadecimal digits of a known length, two spaces, a name that is not empty and has
-- no newline, and a newline.
pub parse_line-plain_line :
    (e : Entry)
    → all_hex e.checksum ≡ true
    → known_length (length e.checksum) ≡ true
    → no_newline e.name ≡ true
    → (length e.name == 0) ≡ false
    → parse_line (plain_line e) ≡ ok (e.checksum, e.name)
unfolding parse_line
parse_line-plain_line e hex known plain some_name =
    let (next, start) = parse_from-checksum e.checksum 1 [] (b' ' ∷ e.name ++ b'\n' ∷ []) hex in
    ap (parse_line) (append_assoc e.checksum (b' ' ∷ b' ' ∷ e.name) (b'\n' ∷ []))
    ∙ start
    ∙ parse_from-filename e.name (next + 1) e.checksum [] plain
    ∙ finish-ok e.checksum e.name known some_name

pub all_hex-no_nul : (cs : Bytes) → all_hex cs ≡ true → no_nul cs ≡ true
unfolding ishex
all_hex-no_nul [] hex = refl
all_hex-no_nul (c ∷ cs) hex = ground (arith, hex, all_hex-no_nul cs)

pub no_nul-append : (s t : Bytes) → no_nul (s ++ t) ≡ true → (no_nul s ≡ true) × (no_nul t ≡ true)
no_nul-append [] t h = (refl, h)
no_nul-append (c ∷ s) t h = ground (arith, h, no_nul-append s t)

-- What the writer inserts as it is.
pub line_of-plain_line :
    (format_s : Bytes → Bytes) (e : Entry)
    → Formats format_s
    → no_nul e.checksum ≡ true
    → no_nul e.name ≡ true
    → line_of format_s e ≡ plain_line e
unfolding line_of
line_of-plain_line format_s e formats sum name =
    rw (formats e.checksum sum, formats e.name name) refl

pub cut_lines-append :
    (line text : Bytes)
    → is_line line ≡ true
    → cut_lines (line ++ text) ≡ (line ∷ (cut_lines text).0, (cut_lines text).1)
unfolding cut_lines
cut_lines-append [] text h = cc
cut_lines-append (c ∷ []) text h = ground (arith, h)
cut_lines-append (c ∷ d ∷ line) text h = ground (arith, h, cut_lines-append (d ∷ line) text)

is_line-append :
    (a : Bytes) (d : ℕ) (b : Bytes) → no_newline a ≡ true → is_line (a ++ d ∷ b) ≡ is_line (d ∷ b)
is_line-append [] d b plain = refl
is_line-append (c ∷ []) d b plain = ground (arith, plain)
is_line-append (c ∷ e ∷ a) d b plain = ground (arith, plain, is_line-append (e ∷ a) d b)

all_hex-no_newline : (cs : Bytes) → all_hex cs ≡ true → no_newline cs ≡ true
unfolding ishex
all_hex-no_newline [] hex = refl
all_hex-no_newline (c ∷ cs) hex = ground (arith, hex, all_hex-no_newline cs)

pub plain_line-is_line :
    (e : Entry)
    → all_hex e.checksum ≡ true
    → no_newline e.name ≡ true
    → is_line (plain_line e) ≡ true
plain_line-is_line e hex plain =
    ap is_line (append_assoc e.checksum (b' ' ∷ b' ' ∷ e.name) (b'\n' ∷ []))
    ∙ is_line-append e.checksum b' ' (b' ' ∷ e.name ++ b'\n' ∷ [])
        (all_hex-no_newline e.checksum hex)
    ∙ is_line-append (b' ' ∷ b' ' ∷ e.name) b'\n' [] plain
