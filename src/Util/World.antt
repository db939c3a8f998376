-- ===== src/Util/World.antt =====
-- The state of the process that the exported functions share. `Once::call_once` runs one of the two
-- initialisers of the logger (rust/src/util/api.rs); a dropped `File` closes its descriptor; the
-- state of the libraries and of the Go side is `ext`, of any type.
use ffi_demo.Base.{ℕ, String, List, [], ◌∷◌, ◌++◌, Bool, true, false}
use ffi_demo.Base.Effect.{Unwind, Result, Exec}

-- `LOG_INIT`: not completed, or completed by `fil_logger::init` or by `fil_logger::init_with_file`.
pub data Logger : Type 0 where
  not_started stderr : Logger
  file : ℕ → Logger

pub record World (E : Type 0) : Type 0 where
  pub logger : Logger
  -- the lines of `log::info!`, oldest first
  pub lines : List String
  -- the descriptors closed by the drop of a `File`, oldest first
  pub closed : List ℕ
  pub ext : E

-- `LOG_INIT.is_completed()`
abbrev pub is_completed : Logger → Bool
is_completed not_started = false
is_completed _ = true

module _ {E : Type 0} where
  -- `log::info!`
  abbrev pub info : String → World E → World E
  info line w = record w { lines = w.lines ++ (line ∷ []) }

  -- The drop of a `std::fs::File` over a descriptor.
  abbrev pub drop_file : ℕ → World E → World E
  drop_file fd w = record w { closed = w.closed ++ (fd ∷ []) }

  -- A call of a library: it may change the state outside, return a `Result`, or panic.
  abbrev pub outside : {A : Type 0} → (E → Unwind (Result A) × E) → Exec (World E) A
  outside call w = let (r, e) = call w.ext in (r, record w { ext = e })
