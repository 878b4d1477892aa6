-- ===== src/Tests/Files.antt =====
-- The theorems on local/digest.lua, on a small file of checksums.
use e2factory.Common.{
  ◌≡◌, refl, none, List, [], ◌∷◌, ◌++◌, Bytes, codes, replicate, length, leb, ◌==◌, if◌then◌else◌,
  arith,
}
use e2factory.Local.Digest.{
  Entry, under_terminated, in_line, no_filename, ok, error, digest_md5, digest_sha1, parsestring,
  text_of, written, sanity_check, ishex,
}
use e2factory.Local.Digest.Exact.{written-parsestring}
use e2factory.Local.Digest.Lines.{Formats}
use e2factory.Local.Digest.Written.{AllPlain, parsestring-written}

abbrev table : List Entry
table =
    record {
      digest = digest_sha1;
      checksum = replicate 40 b'a';
      name = codes "a file";
      name2check = none;
    }
    ∷ record {
      digest = digest_sha1;
      checksum = replicate 40 b'0';
      name = codes "b";
      name2check = none;
    }
    ∷ []

unnamed_run : parsestring (replicate 32 b'f' ++ codes "  \n") ≡ error (in_line 1 no_filename)
unfolding parsestring
unnamed_run = refl

unterminated_run : parsestring (codes "ab") ≡ error under_terminated
unfolding parsestring
unterminated_run = refl

table-AllPlain : AllPlain table
unfolding ishex
table-AllPlain = (
  record { hex = refl; plain = refl; kept = refl; in_file = refl },
  (record { hex = refl; plain = refl; kept = refl; in_file = refl }, tt),
)

-- "%s" as the Lua of the repository formats it: below 100 bytes, up to the first NUL.
abbrev up_to_nul : Bytes → Bytes
up_to_nul [] = []
up_to_nul (c ∷ s) = let rest = up_to_nul s in if c == 0 then [] else c ∷ rest

abbrev format_s : Bytes → Bytes
format_s s = if leb 100 (length s) then s else up_to_nul s

up_to_nul-Formats : Formats up_to_nul
up_to_nul-Formats [] h = refl
up_to_nul-Formats (c ∷ s) h = ground (arith, h, up_to_nul-Formats s)

format_s-Formats : Formats format_s
format_s-Formats s h = ground (arith, up_to_nul-Formats s h)

nul_run : format_s (b'a' ∷ 0 ∷ b'b' ∷ []) ≡ b'a' ∷ []
nul_run = refl

parsestring-written_example : parsestring (text_of format_s table) ≡ ok table
unfolding written
parsestring-written_example =
    parsestring-written format_s table (text_of format_s table) format_s-Formats table-AllPlain refl

abbrev file : Bytes
file = replicate 32 b'f' ++ codes "  a b\n"

abbrev file_table : List Entry
file_table =
    record {
      digest = digest_md5;
      checksum = replicate 32 b'f';
      name = codes "a b";
      name2check = none;
    }
    ∷ []

file_run : parsestring file ≡ ok file_table
unfolding parsestring
file_run = refl

file-sane : sanity_check file_table ≡ ok []
unfolding sanity_check
file-sane = refl

written-parsestring_example : written format_s file_table ≡ ok file
written-parsestring_example =
    written-parsestring format_s file file_table [] format_s-Formats refl file_run file-sane
