-- ===== src/Local/Digest/Written.antt =====
-- local/digest.lua: what is written is read back.
use e2factory.Common.{
  ℕ, ◌+◌, ◌≡◌, refl, sym, ap, ap₂, ◌∙◌, true, false, ◌==◌, none, some, List, [], ◌∷◌, ◌++◌, Bytes,
  length, map, arith, append_assoc, append-nil,
}
use e2factory.Local.Digest.{
  Entry, Parsed, ok, error, known_length, type_of_length, has_length, add_entry, parse_line,
  parse_lines, parsestring, cut_lines, sane_from, sanity_check, text_of, written, ◌>>=◌,
}
use e2factory.Local.Digest.Lines.{
  all_hex, no_newline, parse_line-plain_line, line_of-plain_line, no_nul, Formats, plain_line,
  plain_text, all_hex-no_nul, cut_lines-append, plain_line-is_line,
}

-- What the writer does not look at: the digits of the checksum, a newline
-- or a NUL in the name, and the field that is no part of the file.
pub record IsPlain (e : Entry) : Type 0 where
  pub hex : all_hex e.checksum ≡ true
  pub plain : no_newline e.name ≡ true
  pub kept : no_nul e.name ≡ true
  pub in_file : e.name2check ≡ none

abbrev pub AllPlain : List Entry → Type 0
AllPlain [] = Unit
AllPlain (e ∷ dt) = IsPlain e × AllPlain dt

-- What `sanity_check` looks at in each entry.
record IsSane (e : Entry) : Type 0 where
  sized : has_length e.digest (length e.checksum) ≡ true
  named : (length e.name == 0) ≡ false

abbrev AllSane : List Entry → Type 0
AllSane [] = Unit
AllSane (e ∷ dt) = IsSane e × AllSane dt

sane_from-AllSane :
    (dt : List Entry) (pos type : ℕ) (r : List Entry) → sane_from pos type dt ≡ ok r → AllSane dt
unfolding sane_from
sane_from-AllSane [] pos type r h = tt
sane_from-AllSane (e ∷ dt) pos type r h = (
  record { sized = ground (arith, h); named = ground (arith, h) },
  sane_from-AllSane dt (pos + 1) type r (ground (arith, h)),
)

has_length-type :
    (type len : ℕ)
    → has_length type len ≡ true
    → (type_of_length len ≡ some type) × (known_length len ≡ true)
unfolding type_of_length known_length
has_length-type type len h = ground (arith, h)

cut_lines-plain_text :
    (dt : List Entry) → AllPlain dt → cut_lines (plain_text dt) ≡ (map plain_line dt, [])
unfolding cut_lines
cut_lines-plain_text [] all = refl
cut_lines-plain_text (e ∷ dt) (p, all) =
    cut_lines-append (plain_line e) (plain_text dt) (plain_line-is_line e p.hex p.plain)
    ∙ ap (λ c. (plain_line e ∷ c.0, c.1)) (cut_lines-plain_text dt all)

add_entry-plain_line :
    (e : Entry) (linenr : ℕ) (dt : List Entry)
    → IsPlain e
    → IsSane e
    → add_entry linenr dt (parse_line (plain_line e)) ≡ ok (dt ++ e ∷ [])
unfolding add_entry
add_entry-plain_line e linenr dt p s =
    let (type, known) = has_length-type e.digest (length e.checksum) s.sized in
    rw (parse_line-plain_line e p.hex known p.plain s.named, add_entry, type)
      (ap (λ c. ok (dt ++ record e { name2check = c } ∷ [])) (sym p.in_file))

parse_lines-plain_line :
    (dt : List Entry) (linenr : ℕ) (before : List Entry)
    → AllPlain dt
    → AllSane dt
    → parse_lines linenr before (map plain_line dt) [] ≡ ok (before ++ dt)
unfolding parse_lines
parse_lines-plain_line [] linenr before all sane = ap ok (sym (append-nil before))
parse_lines-plain_line (e ∷ dt) linenr before (p, all) (s, sane) =
    rw (add_entry-plain_line e linenr before p s) (
      parse_lines-plain_line dt (linenr + 1) (before ++ e ∷ []) all sane
      ∙ ap ok (append_assoc before (e ∷ []) dt))

accepted :
    (m : Parsed (List Entry)) (out text : Bytes)
    → (m >>= λ _. ok out) ≡ ok text
    → (r : List Entry) × (m ≡ ok r) × (out ≡ text)
accepted (ok r) out text h = (r, refl, ground (arith, h))
accepted (error e) out text h = cc

sanity_check-AllSane : (dt r : List Entry) → sanity_check dt ≡ ok r → AllSane dt
unfolding sanity_check
sanity_check-AllSane [] r h = cc
sanity_check-AllSane (e ∷ dt) r h = sane_from-AllSane (e ∷ dt) 1 e.digest r h

text_of-plain_text :
    (format_s : Bytes → Bytes) (dt : List Entry)
    → Formats format_s
    → AllPlain dt
    → text_of format_s dt ≡ plain_text dt
unfolding text_of
text_of-plain_text format_s [] formats all = refl
text_of-plain_text format_s (e ∷ dt) formats (p, all) =
    ap₂ ◌++◌ (line_of-plain_line format_s e formats (all_hex-no_nul e.checksum p.hex) p.kept)
      (text_of-plain_text format_s dt formats all)

-- If the writer accepts a table whose checksums are hexadecimal, whose names have no newline and
-- no NUL, and whose entries have no names to check instead, then what it writes is parsed to the
-- same table, types included. "%s" inserts a string without NUL as it is.
pub parsestring-written :
    (format_s : Bytes → Bytes) (dt : List Entry) (text : Bytes)
    → Formats format_s
    → AllPlain dt
    → written format_s dt ≡ ok text
    → parsestring text ≡ ok dt
unfolding written parsestring
parsestring-written format_s dt text formats all h =
    let (r, sane, same) = accepted (sanity_check dt) (text_of format_s dt) text h in
    rw (← same, text_of-plain_text format_s dt formats all)
      (rw (cut_lines-plain_text dt all)
        (parse_lines-plain_line dt 1 [] all (sanity_check-AllSane dt r sane)))
