-- ===== src/Le2lib/Processes/Arguments.antt =====
-- generic/le2lib.c, `do_execvp`: the argument vector that the new program gets.
use e2factory.Common.{
  suc, ◌+◌, ◌*◌, ◌<◌, ◌≡◌, refl, ap, ap₂, ◌∙◌, true, false, Option, none, some, List, [], ◌∷◌, ◌++◌,
  map, Bytes, arith, length, replicate, take, take-append_exact, ◌==◌, if◌then◌else◌,
}
use e2factory.Lua.{Value, string, table, Fields, Api, outcome, call, no_return, values, boolean}
use e2factory.Le2lib.Posix.{Posix}
use e2factory.Le2lib.Processes.{argv_of, do_execvp}

-- `lua_tostring` gives back a string as it is.
abbrev pub KeepsStrings : Api → Type 0
KeepsStrings api = (text : Bytes) → api.tolstring (some (string text)) ≡ some text

-- The array of `char *`, closed by NULL.
abbrev pub vector : List Bytes → List (Option Bytes)
vector args = map some args ++ (none ∷ [])

map-tolstring :
    (api : Api) (args : List Bytes)
    → KeepsStrings api
    → map (λ v. api.tolstring (some v)) (map string args) ≡ map some args
map-tolstring api [] keeps = refl
map-tolstring api (arg ∷ args) keeps = ap₂ ◌∷◌ (keeps arg) (map-tolstring api args keeps)

length-map-some : (args : List Bytes) → length {A = Option Bytes} (map some args) ≡ length args
length-map-some [] = refl
length-map-some (arg ∷ args) = ap suc (length-map-some args)

argv_of-strings :
    (api : Api) (args : List Bytes)
    → KeepsStrings api
    → argv_of api (length args) (map string args) ≡ vector args
unfolding argv_of
argv_of-strings api args keeps =
    ap (λ l. l ++ (none ∷ []))
      (ap (λ l. take (length args) (l ++ replicate (length args) none))
          (map-tolstring api args keeps)
        ∙ take-append_exact (length args) (map some args) (replicate (length args) none)
            (length-map-some args))

module _ (api : Api) (p : Posix) (file : Bytes) (fields : Fields) (args : List Bytes)
    (s : p.State) where
  -- If Lua gives back strings as they are, with a file name and a table of one or more strings, and
  -- if memory can be had, `do_execvp` calls `execvp` once, on this file and with exactly these
  -- strings and a closing NULL; it does not return if that succeeds, and reports the error of the
  -- call if it fails.
  pub do_execvp-vector :
      (more : List Value)
      → KeepsStrings api
      → api.sequence (some (table fields)) ≡ some (map string args)
      → api.objlen (table fields) ≡ length args
      → 0 < length args
      → (p.malloc_ok ((length args + 1) * 8) s).0 ≡ true
      → let r = p.execvp file (vector args) (p.malloc_ok ((length args + 1) * 8) s).1 in
        let done = call (do_execvp api p) (string file ∷ table fields ∷ more) s in
        (done.1.world ≡ r.1)
        × (outcome done ≡ (
            if r.0
            then no_return
            else values (boolean false ∷ string (p.strerror (p.errno r.1)) ∷ [])))
  unfolding do_execvp
  do_execvp-vector more keeps listed counted enough memory =
      let some_args : (length args == 0) ≡ false = ground arith in
      rw (keeps file, counted, some_args, memory, listed, argv_of-strings api args keeps)
        (ground arith)
