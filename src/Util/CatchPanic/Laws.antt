-- ===== src/Util/CatchPanic/Laws.antt =====
-- What a wrapped callback turns into, on every way that it can end (rust/src/util/types.rs).
use mathlib.Core.Path.{subst}
use ffi_demo.Base.{arith, String, ◌<>◌, ◌≡◌, refl, sym, append-nil, List, [], ◌∷◌, ◌++◌}
use ffi_demo.Base.Effect.{
  Payload, static_str, owned, display, Result, ok, err, Unwind, returns, panics, Exec,
}
use ffi_demo.Util.World.{World, info, outside}
use ffi_demo.Util.Log.{init_log}
use ffi_demo.Util.Response.{Default, Response, no_error, unclassified_error}
use ffi_demo.Util.CatchPanic.{
  panic_message, caught, into_response, end_line, caught_no_default, catch_panic_response,
  catch_panic_response_no_default,
}

-- What a caller reads of a panic: its text if that is a string literal. A text that was formatted
-- is a `String`, and is lost.
abbrev pub panic_reason : Payload → String
panic_reason (static_str text) = "Rust panic: " <> text
panic_reason (owned _) = "Rust panic: no unwind information"

pub panic_message-panic_reason : (p : Payload) → panic_message p ≡ panic_reason p
unfolding panic_message
panic_message-panic_reason (static_str text) = refl
panic_message-panic_reason (owned text) = refl

-- The response that a caller sees, for each end of a callback; `fallback` is the value that an
-- error carries.
abbrev pub Reports : {T : Type 0} → T → Unwind (Result T) → Response T → Type 0
Reports fallback (returns (ok v)) r =
    (r.status_code ≡ no_error) × (r.error_msg ≡ "") × (r.value ≡ v)
Reports fallback (returns (err e)) r =
    (r.status_code ≡ unclassified_error) × (r.error_msg ≡ display e) × (r.value ≡ fallback)
Reports fallback (panics p) r =
    (r.status_code ≡ unclassified_error) × (r.error_msg ≡ panic_reason p) × (r.value ≡ fallback)

-- The lines that a callback leaves after the start line, by how it ended.
abbrev pub end_lines : {A : Type 0} → String → Unwind A → List String
end_lines name (returns _) = (name <> ": end") ∷ []
end_lines name (panics _) = []

-- The world in which the callback runs.
abbrev pub started : {E : Type 0} → String → World E → World E
started name w = info (name <> ": start") (init_log w)

module _ {E T : Type 0} (name : String) where
  caught-Reports :
      ⦃d : Default T⦄ (r : Unwind (Result T)) (w : World E)
      → Reports d.default r (caught (into_response r))
        × ((end_line name (into_response r) w).lines ≡ w.lines ++ end_lines name r)
  unfolding catch_panic_response
  caught-Reports (returns (ok v)) w = ((refl, refl, refl), refl)
  caught-Reports (returns (err e)) w = ((refl, refl, refl), refl)
  caught-Reports (panics p) w =
      ((refl, panic_message-panic_reason p, refl), sym (append-nil w.lines))

  caught_no_default-Reports :
      (zeroed : T) (r : Unwind (Result T)) (w : World E)
      → Reports zeroed r (caught_no_default zeroed r)
        × ((end_line name r w).lines ≡ w.lines ++ end_lines name r)
  unfolding catch_panic_response_no_default
  caught_no_default-Reports zeroed (returns (ok v)) w = ((refl, refl, refl), refl)
  caught_no_default-Reports zeroed (returns (err e)) w = ((refl, refl, refl), refl)
  caught_no_default-Reports zeroed (panics p) w =
      ((refl, panic_message-panic_reason p, refl), sym (append-nil w.lines))

-- `catch_panic_response` reports every end of the callback, which runs with the logger initialised
-- and after the start line: a value with no error, or the default value with the text of the error
-- or the reason of the panic. It logs the end line exactly when the callback did not panic.
pub catch_panic_response-Reports :
    {E T : Type 0} ⦃d : Default T⦄ (name : String) (callback : Exec (World E) T) (w : World E)
    → Reports d.default (callback (started name w)).0 (catch_panic_response name callback w).0
      × ((catch_panic_response name callback w).1.lines
          ≡ (callback (started name w)).1.lines ++ end_lines name (callback (started name w)).0)
unfolding catch_panic_response
catch_panic_response-Reports name callback w =
    caught-Reports name (callback (started name w)).0 (callback (started name w)).1

pub started-ext : {E : Type 0} (name : String) (w : World E) → (started name w).ext ≡ w.ext
unfolding init_log
started-ext name w = ground arith

-- A call of a library whose state is outside: the response reports it, and the state is as it
-- leaves it.
pub catch_panic_response-outside :
    {E T : Type 0} ⦃d : Default T⦄ (name : String) (f : E → Unwind (Result T) × E) (w : World E)
    → let out = catch_panic_response name (outside f) w in
      Reports d.default (f w.ext).0 out.0 × (out.1.ext ≡ (f w.ext).1)
unfolding catch_panic_response init_log
catch_panic_response-outside ⦃d⦄ name f w = (
  subst (λ e. Reports d.default (f e).0 (catch_panic_response name (outside f) w).0)
      (started-ext name w) (catch_panic_response-Reports name (outside f) w).0,
  ground arith,
)

-- `catch_panic_response_no_default` reports every end of the callback, which runs with the logger
-- initialised and after the start line: a value with no error, or the zeroed value with the text of
-- the error or the reason of the panic. It logs the end line exactly when the callback did not panic.
pub catch_panic_response_no_default-Reports :
    {E T : Type 0} (zeroed : T) (name : String) (callback : Exec (World E) T) (w : World E)
    → Reports zeroed
        (callback (started name w)).0
        (catch_panic_response_no_default zeroed name callback w).0
      × ((catch_panic_response_no_default zeroed name callback w).1.lines
          ≡ (callback (started name w)).1.lines ++ end_lines name (callback (started name w)).0)
unfolding catch_panic_response_no_default
catch_panic_response_no_default-Reports zeroed name callback w =
    caught_no_default-Reports name zeroed (callback (started name w)).0
      (callback (started name w)).1

-- Both wrappers report every end of the callback, which runs with the logger initialised and after
-- the start line: a value with no error, or a fallback with the text of the error, or with "Rust panic: "
-- and the panic's text if that is a string literal, and else "no unwind information". The fallback is
-- the default value or, for `catch_panic_response_no_default`, the zeroed one. They log the end line
-- exactly when the callback did not panic.
pub catch_panic-Reports :
    {E T : Type 0} ⦃d : Default T⦄ (zeroed : T) (name : String) (callback : Exec (World E) T)
    (w : World E)
    → let run = callback (started name w) in
      let out = catch_panic_response name callback w in
      let plain = catch_panic_response_no_default zeroed name callback w in
      Reports d.default run.0 out.0
      × (out.1.lines ≡ run.1.lines ++ end_lines name run.0)
      × Reports zeroed run.0 plain.0
      × (plain.1.lines ≡ run.1.lines ++ end_lines name run.0)
catch_panic-Reports zeroed name callback w =
    let (reported, lines) = catch_panic_response-Reports name callback w in
    let (reported', lines') = catch_panic_response_no_default-Reports zeroed name callback w in
    (reported, lines, reported', lines')
