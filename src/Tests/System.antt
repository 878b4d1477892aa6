-- ===== src/Tests/System.antt =====
-- The theorems on generic/le2lib.c at concrete inputs.
use e2factory.Common.{ℕ, ◌≡◌, refl, true, some, List, [], ◌∷◌, map, Bytes, codes, pos}
use e2factory.Le2lib.Registry
use e2factory.Le2lib.Registry.{le2lib_lib-AllReport}
use e2factory.Le2lib.Directories.{close_names}
use e2factory.Le2lib.Directories.Closing.{decimal, to_close, close_each, close_names-exact}
use e2factory.Le2lib.Signals.Shutdown.{
  Moment, arrives, hook_point, IsQuiet, Recorded, run, run-once,
}
use e2factory.Le2lib.Signals.Shutdown.Cleanup.{Cleaned, run-cleans}
use e2factory.Le2lib.Registry.Results
use e2factory.Le2lib.Registry.Results.{le2lib_lib-AllAnnounced}
use e2factory.Tests.Bindings.{lua, posix, quiet}

le2lib_lib-AllAnnounced_example : Results.AllAnnounced lua posix (Registry.lib lua posix)
le2lib_lib-AllAnnounced_example = le2lib_lib-AllAnnounced lua posix

le2lib_lib-AllReport_example : Registry.AllReport lua posix (Registry.lib lua posix)
le2lib_lib-AllReport_example = le2lib_lib-AllReport lua posix

abbrev names : List Bytes
names = codes "." ∷ codes ".." ∷ codes ".git" ∷ codes "src" ∷ []

abbrev descriptors : List ℕ
descriptors = 0 ∷ 1 ∷ 2 ∷ 3 ∷ 17 ∷ []

close_names-exact_example :
    close_names posix (pos 3) (pos 4) (codes "." ∷ codes ".." ∷ map decimal descriptors) []
    ≡ close_each posix (to_close (pos 3) (pos 4) descriptors) []
close_names-exact_example = close_names-exact posix (pos 3) (pos 4) descriptors []

abbrev moments : List Moment
moments = hook_point ∷ arrives 2 ∷ arrives 15 ∷ hook_point ∷ arrives 2 ∷ []

quiet-IsQuiet : IsQuiet quiet
quiet-IsQuiet = record { installed = refl; running = refl; unhooked = refl }

run-once_example : Recorded quiet (some 2) (run moments (quiet, 0))
run-once_example = run-once moments quiet quiet-IsQuiet

run-cleans_example : Cleaned true (run moments (quiet, 0))
run-cleans_example = run-cleans moments quiet quiet-IsQuiet
