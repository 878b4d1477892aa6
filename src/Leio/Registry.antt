-- ===== src/Leio/Registry.antt =====
-- generic/leio.c: the table of the library's functions, and that they report their failures.
pub mod Reachable
pub mod Results
use e2factory.Common.{Bool, List, [], ◌∷◌, arith, String, ◌||◌, if◌then◌else◌}
use text.Mathlib.Text.{◌==◌}
use e2factory.Lua.{Api, M}
use e2factory.Lua.Reports.{Reports}
use e2factory.Leio.Libc.{Libc, World}
use e2factory.Leio.Streams.{
  eio_fopen, eio_fclose, eio_fflush, eio_fdopen, eio_fwrite, eio_fread, eio_fgetc, eio_fileno,
  eio_feof, eio_setlinebuf, eio_setunbuffered,
}
use e2factory.Leio.Descriptors.{
  eio_close, eio_write, eio_read, eio_pipe, eio_dup, eio_dup2, eio_cloexec,
}

module _ (api : Api) (c : Libc) where
  -- `static luaL_Reg lib[]`
  abbrev pub lib : List (String × M (World c) (Unit {0}))
  lib =
      ("cloexec", eio_cloexec api c)
      ∷ ("close", eio_close api c)
      ∷ ("dup", eio_dup api c)
      ∷ ("dup2", eio_dup2 api c)
      ∷ ("fclose", eio_fclose api c)
      ∷ ("fdopen", eio_fdopen api c)
      ∷ ("feof", eio_feof api c)
      ∷ ("fflush", eio_fflush api c)
      ∷ ("fgetc", eio_fgetc api c)
      ∷ ("fileno", eio_fileno api c)
      ∷ ("fopen", eio_fopen api c)
      ∷ ("fread", eio_fread api c)
      ∷ ("fwrite", eio_fwrite api c)
      ∷ ("pipe", eio_pipe api c)
      ∷ ("read", eio_read api c)
      ∷ ("setlinebuf", eio_setlinebuf api c)
      ∷ ("setunbuffered", eio_setunbuffered api c)
      ∷ ("write", eio_write api c)
      ∷ []

  eio_close-Reports : Reports (eio_close api c)
  unfolding eio_close
  eio_close-Reports args w = ground arith

  eio_dup-Reports : Reports (eio_dup api c)
  unfolding eio_dup
  eio_dup-Reports args w = ground arith

  eio_dup2-Reports : Reports (eio_dup2 api c)
  unfolding eio_dup2
  eio_dup2-Reports args w = ground arith

  eio_fclose-Reports : Reports (eio_fclose api c)
  unfolding eio_fclose
  eio_fclose-Reports args w = ground arith

  eio_fdopen-Reports : Reports (eio_fdopen api c)
  unfolding eio_fdopen
  eio_fdopen-Reports args w = ground arith

  eio_fflush-Reports : Reports (eio_fflush api c)
  unfolding eio_fflush
  eio_fflush-Reports args w = ground arith

  eio_fgetc-Reports : Reports (eio_fgetc api c)
  unfolding eio_fgetc
  eio_fgetc-Reports args w = ground arith

  eio_fileno-Reports : Reports (eio_fileno api c)
  unfolding eio_fileno
  eio_fileno-Reports args w = ground arith

  eio_fopen-Reports : Reports (eio_fopen api c)
  unfolding eio_fopen
  eio_fopen-Reports args w = ground arith

  eio_fread-Reports : Reports (eio_fread api c)
  unfolding eio_fread
  eio_fread-Reports args w = ground arith

  eio_fwrite-Reports : Reports (eio_fwrite api c)
  unfolding eio_fwrite
  eio_fwrite-Reports args w = ground arith

  eio_pipe-Reports : Reports (eio_pipe api c)
  unfolding eio_pipe
  eio_pipe-Reports args w = ground arith

  eio_read-Reports : Reports (eio_read api c)
  unfolding eio_read
  eio_read-Reports args w = ground arith

  eio_setlinebuf-Reports : Reports (eio_setlinebuf api c)
  unfolding eio_setlinebuf
  eio_setlinebuf-Reports args w = ground arith

  eio_setunbuffered-Reports : Reports (eio_setunbuffered api c)
  unfolding eio_setunbuffered
  eio_setunbuffered-Reports args w = ground arith

  eio_write-Reports : Reports (eio_write api c)
  unfolding eio_write
  eio_write-Reports args w = ground arith

  -- `cloexec` and `feof` answer a question: their `false` stands alone.
  abbrev pub answers : String → Bool
  answers name = name == "cloexec" || name == "feof"

  abbrev pub AllReport : List (String × M (World c) (Unit {0})) → Type 0
  AllReport [] = Unit
  AllReport ((name, m) ∷ entries) = (if answers name then Unit else Reports m) × AllReport entries

  -- Whatever the arguments and whatever libc answers, every function of the table but `cloexec`
  -- and `feof` that returns `false` as its first value returns the reason after it: a message,
  -- or a message and an error number, and nothing more.
  pub leio_lib-AllReport : AllReport lib
  leio_lib-AllReport = (
    tt,
    (
      eio_close-Reports,
      (
        eio_dup-Reports,
        (
          eio_dup2-Reports,
          (
            eio_fclose-Reports,
            (
              eio_fdopen-Reports,
              (
                tt,
                (
                  eio_fflush-Reports,
                  (
                    eio_fgetc-Reports,
                    (
                      eio_fileno-Reports,
                      (
                        eio_fopen-Reports,
                        (
                          eio_fread-Reports,
                          (
                            eio_fwrite-Reports,
                            (
                              eio_pipe-Reports,
                              (
                                eio_read-Reports,
                                (
                                  eio_setlinebuf-Reports,
                                  (eio_setunbuffered-Reports, (eio_write-Reports, tt)),
                                ),
                              ),
                            ),
                          ),
                        ),
                      ),
                    ),
                  ),
                ),
              ),
            ),
          ),
        ),
      ),
    ),
  )
