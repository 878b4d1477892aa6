-- ===== src/Leio/Registry/Results.antt =====
-- generic/leio.c: the functions of the table announce the values that they push.
use e2factory.Common.{List, [], ◌∷◌, arith, String}
use e2factory.Lua.{Api, M}
use e2factory.Lua.Announced.{Announced}
use e2factory.Leio.Libc.{Libc, World}
use e2factory.Leio.Streams.{
  eio_fopen, eio_fclose, eio_fflush, eio_fdopen, eio_fwrite, eio_fread, eio_fgetc, eio_fileno,
  eio_feof, eio_setlinebuf, eio_setunbuffered,
}
use e2factory.Leio.Descriptors.{
  eio_close, eio_write, eio_read, eio_pipe, eio_dup, eio_dup2, eio_cloexec,
}
use e2factory.Leio.Registry.{lib}

module _ (api : Api) (c : Libc) where
  eio_cloexec-Announced : Announced (eio_cloexec api c)
  unfolding eio_cloexec
  eio_cloexec-Announced args w = ground arith

  eio_close-Announced : Announced (eio_close api c)
  unfolding eio_close
  eio_close-Announced args w = ground arith

  eio_dup-Announced : Announced (eio_dup api c)
  unfolding eio_dup
  eio_dup-Announced args w = ground arith

  eio_dup2-Announced : Announced (eio_dup2 api c)
  unfolding eio_dup2
  eio_dup2-Announced args w = ground arith

  eio_fclose-Announced : Announced (eio_fclose api c)
  unfolding eio_fclose
  eio_fclose-Announced args w = ground arith

  eio_fdopen-Announced : Announced (eio_fdopen api c)
  unfolding eio_fdopen
  eio_fdopen-Announced args w = ground arith

  eio_feof-Announced : Announced (eio_feof api c)
  unfolding eio_feof
  eio_feof-Announced args w = ground arith

  eio_fflush-Announced : Announced (eio_fflush api c)
  unfolding eio_fflush
  eio_fflush-Announced args w = ground arith

  eio_fgetc-Announced : Announced (eio_fgetc api c)
  unfolding eio_fgetc
  eio_fgetc-Announced args w = ground arith

  eio_fileno-Announced : Announced (eio_fileno api c)
  unfolding eio_fileno
  eio_fileno-Announced args w = ground arith

  eio_fopen-Announced : Announced (eio_fopen api c)
  unfolding eio_fopen
  eio_fopen-Announced args w = ground arith

  eio_fread-Announced : Announced (eio_fread api c)
  unfolding eio_fread
  eio_fread-Announced args w = ground arith

  eio_fwrite-Announced : Announced (eio_fwrite api c)
  unfolding eio_fwrite
  eio_fwrite-Announced args w = ground arith

  eio_pipe-Announced : Announced (eio_pipe api c)
  unfolding eio_pipe
  eio_pipe-Announced args w = ground arith

  eio_read-Announced : Announced (eio_read api c)
  unfolding eio_read
  eio_read-Announced args w = ground arith

  eio_setlinebuf-Announced : Announced (eio_setlinebuf api c)
  unfolding eio_setlinebuf
  eio_setlinebuf-Announced args w = ground arith

  eio_setunbuffered-Announced : Announced (eio_setunbuffered api c)
  unfolding eio_setunbuffered
  eio_setunbuffered-Announced args w = ground arith

  eio_write-Announced : Announced (eio_write api c)
  unfolding eio_write
  eio_write-Announced args w = ground arith

  abbrev pub AllAnnounced : List (String × M (World c) (Unit {0})) → Type 0
  AllAnnounced [] = Unit
  AllAnnounced ((name, m) ∷ entries) = Announced m × AllAnnounced entries

  -- Whatever the arguments and whatever libc answers, every function of the table raises an error
  -- of Lua, or ends with the `return` of a number of values, and has pushed at least that many.
  pub leio_lib-AllAnnounced : AllAnnounced (lib api c)
  leio_lib-AllAnnounced = (
    eio_cloexec-Announced,
    (
      eio_close-Announced,
      (
        eio_dup-Announced,
        (
          eio_dup2-Announced,
          (
            eio_fclose-Announced,
            (
              eio_fdopen-Announced,
              (
                eio_feof-Announced,
                (
                  eio_fflush-Announced,
                  (
                    eio_fgetc-Announced,
                    (
                      eio_fileno-Announced,
                      (
                        eio_fopen-Announced,
                        (
                          eio_fread-Announced,
                          (
                            eio_fwrite-Announced,
                            (
                              eio_pipe-Announced,
                              (
                                eio_read-Announced,
                                (
                                  eio_setlinebuf-Announced,
                                  (eio_setunbuffered-Announced, (eio_write-Announced, tt)),
                                ),
                              ),
                            ),
                          ),
                        ),
                      ),
                    ),
                  ),
                ),
              ),
            ),
          ),
        ),
      ),
    ),
  )
