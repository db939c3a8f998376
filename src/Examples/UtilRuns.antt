-- ===== src/Examples/UtilRuns.antt =====
-- Callbacks that panic and fail, and a logger that is set up twice.
use ffi_demo.Base.{ℕ, ◌<>◌, List, [], ◌∷◌, ◌≡◌}
use ffi_demo.Base.Effect.{static_str, Exec, panic, returns, ok}
use ffi_demo.Util.World.{World}
use ffi_demo.Util.Log.{init_log}
use ffi_demo.Util.Response.{unit_default, list_default}
use ffi_demo.Util.CatchPanic.{catch_panic_response, catch_panic_response_no_default}
use ffi_demo.Util.CatchPanic.Laws.{Reports, started, catch_panic-Reports}
use ffi_demo.Util.Api.Laws.{Body, Call, log_fd, wrapped, silent}
use ffi_demo.Examples.Concrete.{world}

abbrev empty : World ℕ
empty = world 0

abbrev panicking : Exec (World ℕ) (List ℕ)
panicking = panic (static_str "oops")

catch_panic-Reports_example :
    let plain = catch_panic_response_no_default (0 ∷ []) "f" panicking empty in
    Reports [] (panicking (started "f" empty)).0 (catch_panic_response "f" panicking empty).0
    × ((catch_panic_response "f" panicking empty).1.lines ≡ ("f" <> ": start") ∷ [])
    × Reports (0 ∷ []) (panicking (started "f" empty)).0 plain.0
    × (plain.1.lines ≡ ("f" <> ": start") ∷ [])
unfolding init_log
catch_panic-Reports_example = catch_panic-Reports (0 ∷ []) "f" panicking empty

abbrev done : {A : Type 0} → A → Body ℕ A
done a e = (returns a, e, [])

-- A function that does without the logger, one behind a wrapper, and a call of `init_log_fd`.
abbrev three_calls : List (Call ℕ)
three_calls = silent (done tt) ∷ wrapped "f" (done (ok tt)) ∷ log_fd 3 ∷ []
