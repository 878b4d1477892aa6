-- ===== src/Tests/Wrapper.antt =====
-- The theorem on local/linux32.c, on a kernel whose calls succeed.
use e2factory.Common.{true, List, [], ◌∷◌, Bytes, codes}
use e2factory.Linux32.{Kernel, main, seen, Promised, main-Promised}

abbrev kernel : Kernel
kernel = record {
  personality_ok = true;
  personality_errno = 22;
  execvp_ok = λ file args. true;
  execvp_errno = 2;
  strerror = λ e. codes "error";
}

abbrev build : List Bytes
build = codes "linux32" ∷ codes "make" ∷ codes "all" ∷ []

main-Promised_example : Promised build (seen kernel 0 [] (main kernel build))
main-Promised_example = main-Promised kernel build 0
