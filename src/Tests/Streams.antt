-- ===== src/Tests/Streams.antt =====
-- The theorems on generic/leio.c at concrete inputs.
use e2factory.Common.{◌≡◌, refl, List, [], ◌∷◌, codes, pos, arith}
use e2factory.Lua.{Value, lightuserdata, number, string, values, outcome, call}
use e2factory.Leio.Registry
use e2factory.Leio.ReadBuffer.{get_read_buf, grow}
use e2factory.Leio.Streams.{eio_fread}
use e2factory.Leio.Streams.Reading.{IsSized, eio_fread-lossless}
use e2factory.Leio.Registry.{leio_lib-AllReport}
use e2factory.Leio.Registry.Reachable
use e2factory.Leio.Registry.Reachable.{reached-IsSized}
use e2factory.Leio.Registry.Results
use e2factory.Leio.Registry.Results.{leio_lib-AllAnnounced}
use e2factory.Tests.Bindings.{lua, libc, streams}

leio_lib-AllReport_example : Registry.AllReport lua libc (Registry.lib lua libc)
leio_lib-AllReport_example = leio_lib-AllReport lua libc

streams-IsSized : IsSized libc streams
streams-IsSized = record { sized = λ e. refl }

abbrev fread_args : List Value
fread_args = lightuserdata 4096 ∷ number (pos 2) ∷ []

eio_fread-lossless_example :
    outcome (call (eio_fread lua libc) fread_args streams) ≡ values (string (codes "ok") ∷ [])
unfolding get_read_buf grow
eio_fread-lossless_example =
    eio_fread-lossless lua libc fread_args streams 4096 8192 2 refl refl (omega arith) refl

leio_lib-AllAnnounced_example : Results.AllAnnounced lua libc (Registry.lib lua libc)
leio_lib-AllAnnounced_example = leio_lib-AllAnnounced lua libc

-- After `fread` and then `fclose`.
reached-IsSized_example : IsSized libc (
    Reachable.called lua libc
      (Registry.lib lua libc)
      4
      []
      (Reachable.called lua libc (Registry.lib lua libc) 11 fread_args streams))
reached-IsSized_example =
    reached-IsSized lua libc streams _ streams-IsSized
      (Reachable.calls 4 [] (Reachable.calls 11 fread_args Reachable.loaded))
