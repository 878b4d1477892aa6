-- ===== src/Leio/Registry/Reachable.antt =====
-- generic/leio.c: what every function of the table keeps of the library's state, in any order of
-- calls.
use e2factory.Common.{
  ℕ, suc, zero, ◌≡◌, refl, Option, none, some, List, [], ◌∷◌, arith, String, get_elem?, to_size,
  ◌++◌, ℤ,
}
use e2factory.Lua.{Api, M, Value, call}
use e2factory.Leio.Libc.{Libc, World}
use e2factory.Leio.Streams.{
  eio_fopen, eio_fclose, eio_fflush, eio_fdopen, eio_fwrite, eio_fread, eio_fgetc, eio_fileno,
  eio_feof, eio_setlinebuf, eio_setunbuffered,
}
use e2factory.Leio.Streams.Reading.{IsSized, get_read_buf-IsSized}
use e2factory.Leio.Descriptors.{
  eio_close, eio_write, eio_read, eio_pipe, eio_dup, eio_dup2, eio_cloexec,
}
use e2factory.Leio.Registry.{lib}

module _ (api : Api) (c : Libc) where
  -- A function after which a buffer that is missing still has no size.
  abbrev pub Keeps : M (World c) (Unit {0}) → Type 0
  Keeps m = (args : List Value) (w : World c) → IsSized c w → IsSized c (call m args w).1.world

  eio_cloexec-Keeps : Keeps (eio_cloexec api c)
  unfolding eio_cloexec
  eio_cloexec-Keeps args w h = ground (arith, h.sized)

  eio_close-Keeps : Keeps (eio_close api c)
  unfolding eio_close
  eio_close-Keeps args w h = ground (arith, h.sized)

  eio_dup-Keeps : Keeps (eio_dup api c)
  unfolding eio_dup
  eio_dup-Keeps args w h = ground (arith, h.sized)

  eio_dup2-Keeps : Keeps (eio_dup2 api c)
  unfolding eio_dup2
  eio_dup2-Keeps args w h = ground (arith, h.sized)

  eio_fclose-Keeps : Keeps (eio_fclose api c)
  unfolding eio_fclose
  eio_fclose-Keeps args w h = ground (arith, h.sized)

  eio_fdopen-Keeps : Keeps (eio_fdopen api c)
  unfolding eio_fdopen
  eio_fdopen-Keeps args w h = ground (arith, h.sized)

  eio_feof-Keeps : Keeps (eio_feof api c)
  unfolding eio_feof
  eio_feof-Keeps args w h = ground (arith, h.sized)

  eio_fflush-Keeps : Keeps (eio_fflush api c)
  unfolding eio_fflush
  eio_fflush-Keeps args w h = ground (arith, h.sized)

  eio_fgetc-Keeps : Keeps (eio_fgetc api c)
  unfolding eio_fgetc
  eio_fgetc-Keeps args w h = ground (arith, h.sized)

  eio_fileno-Keeps : Keeps (eio_fileno api c)
  unfolding eio_fileno
  eio_fileno-Keeps args w h = ground (arith, h.sized)

  eio_fopen-Keeps : Keeps (eio_fopen api c)
  unfolding eio_fopen
  eio_fopen-Keeps args w h = ground (arith, h.sized)

  eio_fread-Keeps : Keeps (eio_fread api c)
  unfolding eio_fread
  eio_fread-Keeps args w h =
      let kept = get_read_buf-IsSized c (to_size (api.tointeger (get_elem? (args ++ []) 1))) w h in
      ground (arith, h.sized, kept.0.sized)

  eio_fwrite-Keeps : Keeps (eio_fwrite api c)
  unfolding eio_fwrite
  eio_fwrite-Keeps args w h = ground (arith, h.sized)

  eio_pipe-Keeps : Keeps (eio_pipe api c)
  unfolding eio_pipe
  eio_pipe-Keeps args w h = ground (arith, h.sized)

  eio_read-Keeps : Keeps (eio_read api c)
  unfolding eio_read
  eio_read-Keeps args w h = for_size (api.checkinteger (get_elem? (args ++ []) 1)) refl
    where
      for_size :
          (n : Option ℤ)
          → api.checkinteger (get_elem? (args ++ []) 1) ≡ n
          → IsSized c (call (eio_read api c) args w).1.world
      for_size none e = ground (arith, e, h.sized)
      for_size (some n) e =
          let kept = get_read_buf-IsSized c (to_size n) w h in
          ground (arith, e, h.sized, kept.0.sized)

  eio_setlinebuf-Keeps : Keeps (eio_setlinebuf api c)
  unfolding eio_setlinebuf
  eio_setlinebuf-Keeps args w h = ground (arith, h.sized)

  eio_setunbuffered-Keeps : Keeps (eio_setunbuffered api c)
  unfolding eio_setunbuffered
  eio_setunbuffered-Keeps args w h = ground (arith, h.sized)

  eio_write-Keeps : Keeps (eio_write api c)
  unfolding eio_write
  eio_write-Keeps args w h = ground (arith, h.sized)

  abbrev AllKeep : List (String × M (World c) (Unit {0})) → Type 0
  AllKeep [] = Unit
  AllKeep ((name, m) ∷ entries) = Keeps m × AllKeep entries

  lib-AllKeep : AllKeep (lib api c)
  lib-AllKeep = (
    eio_cloexec-Keeps,
    (
      eio_close-Keeps,
      (
        eio_dup-Keeps,
        (
          eio_dup2-Keeps,
          (
            eio_fclose-Keeps,
            (
              eio_fdopen-Keeps,
              (
                eio_feof-Keeps,
                (
                  eio_fflush-Keeps,
                  (
                    eio_fgetc-Keeps,
                    (
                      eio_fileno-Keeps,
                      (
                        eio_fopen-Keeps,
                        (
                          eio_fread-Keeps,
                          (
                            eio_fwrite-Keeps,
                            (
                              eio_pipe-Keeps,
                              (
                                eio_read-Keeps,
                                (
                                  eio_setlinebuf-Keeps,
                                  (eio_setunbuffered-Keeps, (eio_write-Keeps, tt)),
                                ),
                              ),
                            ),
                          ),
                        ),
                      ),
                    ),
                  ),
                ),
              ),
            ),
          ),
        ),
      ),
    ),
  )

  -- A call of the function at an index of a table.
  abbrev pub called : List (String × M (World c) (Unit {0})) → ℕ → List Value → World c → World c
  called [] i args w = w
  called ((name, m) ∷ entries) zero args w = (call m args w).1.world
  called ((name, m) ∷ entries) (suc i) args w = called entries i args w

  called-IsSized :
      (entries : List (String × M (World c) (Unit {0})))
      → AllKeep entries
      → (i : ℕ) (args : List Value) (w : World c) → IsSized c w
      → IsSized c (called entries i args w)
  called-IsSized [] all i args w h = h
  called-IsSized ((name, m) ∷ entries) (keeps, all) zero args w h = keeps args w h
  called-IsSized ((name, m) ∷ entries) (keeps, all) (suc i) args w h =
      called-IsSized entries all i args w h

  -- The worlds that calls of the library lead to, whatever the order and the arguments.
  pub data Reaches (start : World c) : World c → Type 0 where
    loaded : Reaches start start
    calls :
        (i : ℕ) (args : List Value) {w : World c}
        → Reaches start w
        → Reaches start (called (lib api c) i args w)

  -- From a world in which no buffer has no size, every world that calls of the functions of the
  -- table lead to, in any order, with any arguments and whatever libc answers, is such a world.
  pub reached-IsSized : (start w : World c) → IsSized c start → Reaches start w → IsSized c w
  reached-IsSized start w h loaded = h
  reached-IsSized start w h (calls i args {w = before} r) =
      called-IsSized (lib api c) lib-AllKeep i args before (reached-IsSized start before h r)
