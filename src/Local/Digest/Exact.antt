-- ===== src/Local/Digest/Exact.antt =====
-- local/digest.lua: what the parser accepts, and the writer too, is what the writer writes.
use e2factory.Common.{
  ℕ, ◌+◌, ◌≡◌, refl, sym, ap, ap₂, ◌∙◌, true, false, ◌==◌, ==_iff, none, List, [], ◌∷◌, ◌++◌, Bytes,
  length, arith, append_assoc, append-nil, Bool-cases, Option-cases, inl, inr,
}
use e2factory.Local.Digest.{
  Entry, Parsed, ok, error, type_of_length, add_entry, parse_from, finish, checksum, space,
  filename, parse_line, parse_lines, parsestring, cut_lines, longer, text_of, written, sanity_check,
  ◌>>=◌, ishex,
}
use e2factory.Local.Digest.Lines.{
  is_line, no_nul, no_nul-append, Formats, plain_line, plain_text, line_of-plain_line,
}

is_line-tail :
    (c : ℕ) (line : Bytes) → is_line (c ∷ line) ≡ true → (c == b'\n') ≡ false → is_line line ≡ true
is_line-tail c [] h other = cc
is_line-tail c (d ∷ line) h other = ground (arith, h)

is_line-last : (c : ℕ) (line : Bytes) → is_line (c ∷ line) ≡ true → (c == b'\n') ≡ true → line ≡ []
is_line-last c [] h same = refl
is_line-last c (d ∷ line) h same = ground (arith, h, same)

finish-exact : (cs fn : Bytes) (r : Bytes × Bytes) → finish cs fn ≡ ok r → (r.0 ≡ cs) × (r.1 ≡ fn)
unfolding finish
finish-exact cs [] r h = ground (arith, h)
finish-exact cs (c ∷ fn) r h = ground (arith, h)

filename-exact :
    (line : Bytes) (pos : ℕ) (cs acc : Bytes) (r : Bytes × Bytes)
    → is_line line ≡ true
    → parse_from filename pos cs acc line ≡ ok r
    → (r.0 ≡ cs) × (acc ++ line ≡ r.1 ++ b'\n' ∷ [])
unfolding parse_from
filename-exact [] pos cs acc r whole h = cc
filename-exact (c ∷ line) pos cs acc r whole h = elim (Bool-cases (c == b'\n')) [
  | inl same ↦
      let (sum, name) = finish-exact cs acc r (ground (arith, h, same)) in
      (
        sum,
        ap₂ (λ (c : ℕ) tail. acc ++ c ∷ tail) ((==_iff c b'\n').0 same)
              (is_line-last c line whole same)
            ∙ ap (λ fn. fn ++ b'\n' ∷ []) (sym name),
      )
  | inr other ↦
      let (sum, rest) =
        filename-exact line (pos + 1) cs (acc ++ c ∷ []) r (is_line-tail c line whole other)
          (ground (arith, h, other)) in
      (sum, sym (append_assoc acc (c ∷ []) line) ∙ rest)
]

space-exact :
    (line : Bytes) (pos : ℕ) (cs : Bytes) (r : Bytes × Bytes)
    → is_line line ≡ true
    → parse_from space pos cs [] line ≡ ok r
    → (r.0 ≡ cs) × (line ≡ b' ' ∷ r.1 ++ b'\n' ∷ [])
unfolding parse_from
space-exact [] pos cs r whole h = cc
space-exact (c ∷ line) pos cs r whole h = elim (Bool-cases (c == b' ')) [
  | inl same ↦
      let (sum, rest) =
        filename-exact line (pos + 1) cs [] r (is_line-tail c line whole (ground (arith, same)))
          (ground (arith, h, same)) in
      (sum, ap₂ (λ (c : ℕ) tail. c ∷ tail) ((==_iff c b' ').0 same) rest)
  | inr other ↦ ground (arith, h, other)
]

checksum-exact :
    (line : Bytes) (pos : ℕ) (acc : Bytes) (r : Bytes × Bytes)
    → is_line line ≡ true
    → parse_from checksum pos acc [] line ≡ ok r
    → acc ++ line ≡ r.0 ++ b' ' ∷ b' ' ∷ r.1 ++ b'\n' ∷ []
unfolding parse_from ishex
checksum-exact [] pos acc r whole h = cc
checksum-exact (c ∷ line) pos acc r whole h = elim (Bool-cases (ishex c)) [
  | inl hex ↦
      sym (append_assoc acc (c ∷ []) line)
      ∙ checksum-exact line (pos + 1) (acc ++ c ∷ []) r
          (is_line-tail c line whole (ground (arith, hex))) (ground (arith, h, hex))
  | inr other ↦ elim (Bool-cases (c == b' ')) [
    | inl blank ↦
        let (sum, rest) =
          space-exact line (pos + 1) acc r (is_line-tail c line whole (ground (arith, blank)))
            (ground (arith, h, other, blank)) in
        ap₂ ◌++◌ (sym sum) (ap₂ (λ (c : ℕ) tail. c ∷ tail) ((==_iff c b' ').0 blank) rest)
        ∙ sym (append_assoc r.0 (b' ' ∷ b' ' ∷ r.1) (b'\n' ∷ []))
    | inr neither ↦ ground (arith, h, other, neither)
  ]
]

AllLines : List Bytes → Type 0
AllLines [] = Unit
AllLines (line ∷ lines) = (is_line line ≡ true) × AllLines lines

joined : List Bytes → Bytes
joined [] = []
joined (line ∷ lines) = line ++ joined lines

longer-AllLines :
    (c : ℕ) (lines : List Bytes) (rest : Bytes)
    → (c == b'\n') ≡ false
    → AllLines lines
    → AllLines (longer c lines rest).0
      × (joined (longer c lines rest).0 ++ (longer c lines rest).1 ≡ c ∷ joined lines ++ rest)
unfolding AllLines joined
longer-AllLines c [] rest other all = (tt, refl)
longer-AllLines c ([] ∷ lines) rest other (whole, all) = cc
longer-AllLines c ((d ∷ line) ∷ lines) rest other (whole, all) =
    ((ground (arith, other, whole), all), refl)

cut_lines-AllLines :
    (text : Bytes)
    → AllLines (cut_lines text).0 × (joined (cut_lines text).0 ++ (cut_lines text).1 ≡ text)
unfolding cut_lines AllLines joined
cut_lines-AllLines [] = (tt, refl)
cut_lines-AllLines (c ∷ text) =
    let (all, same) = cut_lines-AllLines text in
    elim (Bool-cases (c == b'\n')) [
      | inl newline ↦ rw newline ((newline, all), ap (λ t. c ∷ t) same)
      | inr other ↦ rw other (
          let (longer_all, whole) =
            longer-AllLines c (cut_lines text).0 (cut_lines text).1 other all in
          (longer_all, whole ∙ ap (λ t. c ∷ t) same))
    ]

-- The entry that a line adds makes up the line.
add_entry-exact :
    (linenr : ℕ) (dt : List Entry) (line : Bytes) (r : List Entry)
    → is_line line ≡ true
    → add_entry linenr dt (parse_line line) ≡ ok r
    → (e : Entry) × (r ≡ dt ++ e ∷ []) × (plain_line e ≡ line)
unfolding add_entry parse_line
add_entry-exact linenr dt line r whole h = added (parse_line line) refl h
  where
    added :
        (m : Parsed (Bytes × Bytes))
        → parse_line line ≡ m
        → add_entry linenr dt m ≡ ok r
        → (e : Entry) × (r ≡ dt ++ e ∷ []) × (plain_line e ≡ line)
    added (error f) e h = cc
    added (ok (cs, fn)) e h = elim (Option-cases (type_of_length (length cs))) [
      | inl unknown ↦ absurd (ground (arith, h, unknown))
      | inr (type, known) ↦ (
        record { digest = type; checksum = cs; name = fn; name2check = none },
        ground (arith, h, known),
        sym (checksum-exact line 1 [] (cs, fn) whole e),
      )
    ]

parse_lines-exact :
    (lines : List Bytes) (linenr : ℕ) (before : List Entry) (rest : Bytes) (dt : List Entry)
    → AllLines lines
    → parse_lines linenr before lines rest ≡ ok dt
    → (es : List Entry) × (dt ≡ before ++ es) × (plain_text es ≡ joined lines ++ rest)
unfolding parse_lines AllLines joined
parse_lines-exact [] linenr before [] dt all h = ([], ground (arith, h, append-nil before), refl)
parse_lines-exact [] linenr before (c ∷ rest) dt all h = cc
parse_lines-exact (line ∷ lines) linenr before rest dt (whole, all) h =
    let (more, added, ends) = step (add_entry linenr before (parse_line line)) h in
    let (e, grown, same) = add_entry-exact linenr before line more whole added in
    let (es, sum, text) = parse_lines-exact lines (linenr + 1) more rest dt all ends in
    (
      e ∷ es,
      sum ∙ ap (λ b. b ++ es) grown ∙ append_assoc before (e ∷ []) es,
      ap₂ ◌++◌ same text ∙ sym (append_assoc line (joined lines) rest),
    )
  where
    step :
        (m : Parsed (List Entry))
        → (m >>= λ more. parse_lines (linenr + 1) more lines rest) ≡ ok dt
        → (more : List Entry) × (m ≡ ok more) × (parse_lines (linenr + 1) more lines rest ≡ ok dt)
    step (ok more) h = (more, refl, h)
    step (error f) h = cc

text_of-no_nul :
    (format_s : Bytes → Bytes) (dt : List Entry)
    → Formats format_s
    → no_nul (plain_text dt) ≡ true
    → text_of format_s dt ≡ plain_text dt
unfolding text_of
text_of-no_nul format_s [] formats h = refl
text_of-no_nul format_s (e ∷ dt) formats h =
    let (line, rest) = no_nul-append (plain_line e) (plain_text dt) h in
    let (front, newline) = no_nul-append (e.checksum ++ b' ' ∷ b' ' ∷ e.name) (b'\n' ∷ []) line in
    let (sum, name) = no_nul-append e.checksum (b' ' ∷ b' ' ∷ e.name) front in
    ap₂ ◌++◌ (line_of-plain_line format_s e formats sum name)
      (text_of-no_nul format_s dt formats rest)

parsestring-plain_text :
    (text : Bytes) (dt : List Entry) → parsestring text ≡ ok dt → plain_text dt ≡ text
unfolding parsestring
parsestring-plain_text text dt h =
    let (all, whole) = cut_lines-AllLines text in
    let (es, sum, same) = parse_lines-exact (cut_lines text).0 1 [] (cut_lines text).1 dt all h in
    ap plain_text sum ∙ same ∙ whole

-- If a file without NUL is parsed, and `sanity_check` accepts the table, then the writer makes of
-- the table the file again, to the byte. "%s" inserts a string without NUL as it is.
pub written-parsestring :
    (format_s : Bytes → Bytes) (text : Bytes) (dt r : List Entry)
    → Formats format_s
    → no_nul text ≡ true
    → parsestring text ≡ ok dt
    → sanity_check dt ≡ ok r
    → written format_s dt ≡ ok text
unfolding written
written-parsestring format_s text dt r formats clean h sane =
    let same = parsestring-plain_text text dt h in
    let kept : no_nul (plain_text dt) ≡ true = ap no_nul same ∙ clean in
    rw sane (ap ok (text_of-no_nul format_s dt formats kept ∙ same))
