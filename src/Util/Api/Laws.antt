-- ===== src/Util/Api/Laws.antt =====
-- The life of the logger over any sequence of calls of exported functions (rust/src/util/api.rs).
use ffi_demo.Base.{ℕ, String, if◌then◌else◌, ◌≡◌, List, [], ◌∷◌, ◌++◌, arith}
use ffi_demo.Base.Effect.{Result, Unwind}
use ffi_demo.Util.World.{Logger, not_started, stderr, file, World, is_completed}
use ffi_demo.Util.Response.{unit_default, Response, no_error, unclassified_error}
use ffi_demo.Util.CatchPanic.{
  catch_panic_response, catch_panic_response_raw, catch_panic_response_no_default,
}
use ffi_demo.Util.Api.{init_log_fd}

-- What a function does beside the logger: the state outside, and the descriptors that it closes.
abbrev pub Body : Type 0 → Type 0 → Type 0
Body E A = E → Unwind A × E × List ℕ

-- An exported function: `init_log_fd`, one behind any of the three wrappers that set up the logger, or
-- one that does without them, as those on signatures and the accessors do.
pub data Call (E : Type 0) : Type 0 where
  log_fd : ℕ → Call E
  wrapped : String → Body E (Result (Unit {0})) → Call E
  wrapped_raw : String → Body E (Response (Unit {0})) → Call E
  wrapped_no_default : String → Body E (Result (Unit {0})) → Call E
  silent : Body E (Unit {0}) → Call E

module _ {E : Type 0} where
  abbrev pub on_world : {A : Type 0} → Body E A → World E → Unwind A × World E
  on_world body w =
      let (r, e, fds) = body w.ext in (r, record w { ext = e; closed = w.closed ++ fds })

  pub run_call : Call E → World E → World E
  run_call (log_fd fd) w = (init_log_fd fd w).1
  run_call (wrapped name body) w = (catch_panic_response name (on_world body) w).1
  run_call (wrapped_raw name body) w = (catch_panic_response_raw name (on_world body) w).1
  run_call (wrapped_no_default name body) w =
      (catch_panic_response_no_default tt name (on_world body) w).1
  run_call (silent body) w = (on_world body w).1

  pub run_calls : List (Call E) → World E → World E
  run_calls [] w = w
  run_calls (c ∷ calls) w = run_calls calls (run_call c w)

  -- The logger that is set up by these calls: by the first that is not silent.
  abbrev pub decided : List (Call E) → Logger
  decided [] = not_started
  decided (log_fd fd ∷ calls) = file fd
  decided (wrapped _ _ ∷ calls) = stderr
  decided (wrapped_raw _ _ ∷ calls) = stderr
  decided (wrapped_no_default _ _ ∷ calls) = stderr
  decided (silent _ ∷ calls) = decided calls

  -- `init_log_fd` reports success exactly when the logger was not yet set up, and then closes
  -- nothing; otherwise it reports an error and closes the descriptor that it was given.
  pub init_log_fd-first :
      (fd : ℕ) (w : World E)
      → ((init_log_fd fd w).0.status_code
          ≡ (if is_completed w.logger then unclassified_error else no_error))
        × ((init_log_fd fd w).1.logger ≡ (if is_completed w.logger then w.logger else file fd))
        × ((init_log_fd fd w).1.closed
            ≡ (if is_completed w.logger then w.closed ++ (fd ∷ []) else w.closed))
  unfolding init_log_fd
  init_log_fd-first fd w = ground arith

  -- The logger that a call leaves, if it is the first or a later one.
  abbrev after_call : Call E → Logger → Logger
  after_call (log_fd fd) l = if is_completed l then l else file fd
  after_call (wrapped _ _) l = if is_completed l then l else stderr
  after_call (wrapped_raw _ _) l = if is_completed l then l else stderr
  after_call (wrapped_no_default _ _) l = if is_completed l then l else stderr
  after_call (silent _) l = l
