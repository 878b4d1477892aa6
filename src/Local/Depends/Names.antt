-- ===== src/Local/Depends/Names.antt =====
-- local/e2tool.lua: the names of results and sources as paths.
use e2factory.Common.{◌≡◌, refl, true, [], ◌∷◌, Bytes, arith}
use e2factory.Local.Depends.{
  all_name_chars, verify_src_res_name_valid_chars, gsub_char, src_res_name_to_path,
  src_res_path_to_name,
}

gsub_back :
    (name : Bytes)
    → all_name_chars name ≡ true
    → gsub_char b'/' b'.' (gsub_char b'.' b'/' name) ≡ name
unfolding all_name_chars gsub_char
gsub_back [] valid = refl
gsub_back (c ∷ name) valid = ground (arith, valid, gsub_back name)

-- A valid name comes back from its path.
pub src_res_path_to_name-to_path :
    (name : Bytes)
    → verify_src_res_name_valid_chars name ≡ true
    → src_res_path_to_name (src_res_name_to_path name) ≡ name
unfolding src_res_path_to_name src_res_name_to_path verify_src_res_name_valid_chars
src_res_path_to_name-to_path [] valid = cc
src_res_path_to_name-to_path (c ∷ name) valid = gsub_back (c ∷ name) valid
