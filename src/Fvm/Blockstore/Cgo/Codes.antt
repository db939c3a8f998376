-- ===== src/Fvm/Blockstore/Cgo/Codes.antt =====
-- What each error code of the bridge becomes on the Rust side.
use ffi_demo.Base.{ℕ, String, ◌≡◌, refl, false, none, List}
use ffi_demo.Base.Effect.{Result, ok, err, Unwind, returns, panics}
use ffi_demo.Fvm.Cgo.{FvmError, invalid_handle, not_found, fvm_error_i32, Std}
use ffi_demo.Fvm.Blockstore.Cgo.{has_code, get_code, put_code}

-- How a call ended, without its texts.
pub data Ending (A : Type 0) : Type 0 where
  value : A → Ending A
  error unwound : Ending A

abbrev pub ending : {A : Type 0} → Unwind (Result A) → Ending A
ending (returns (ok a)) = value a
ending (returns (err _)) = error
ending (panics _) = unwound

-- The outcome for an error of the bridge, by what an absent block means to the method.
abbrev pub expected : {A : Type 0} → Ending A → FvmError → Ending A
expected absent invalid_handle = unwound
expected absent not_found = absent
expected absent _ = error

-- Every error code of the bridge is handled alike by the methods: a handle that is not registered
-- unwinds, an absent block is an answer to `has` and to `get` and unwinds in a put, and any other
-- error, a panic on the Go side included, is an error.
pub error_codes :
    (F : Std) {E : Type 0} (handle : ℕ) (x : FvmError) (buf : List ℕ) (method : String) (e : E)
    → (ending (has_code F handle (fvm_error_i32 x) e).0 ≡ expected (value false) x)
      × (ending (get_code F handle (fvm_error_i32 x) buf e).0 ≡ expected (value none) x)
      × (ending (put_code F method handle (fvm_error_i32 x) e).0 ≡ expected unwound x)
unfolding has_code get_code put_code fvm_error_i32
error_codes F handle invalid_handle buf method e = (refl, refl, refl)
error_codes F handle _ buf method e = (refl, refl, refl)
