-- ===== src/Fvm/Cgo.antt =====
-- rust/src/fvm/cgo: the error codes of the bridge, and the functions that the Go side exports. The Go
-- side, and the formatting of numbers by the standard library, are parameters.
use ffi_demo.Base.{ℕ, String, List}
use ffi_demo.Base.Int.{ℤ, negsuc}
use ffi_demo.Base.Effect.{Payload}

pub data FvmError : Type 0 where
  invalid_handle not_found io invalid_argument panic : FvmError

-- The discriminants of the `repr(i32)`: -1 to -5.
unfoldable pub fvm_error_i32 : FvmError → ℤ
fvm_error_i32 invalid_handle = negsuc 0
fvm_error_i32 not_found = negsuc 1
fvm_error_i32 io = negsuc 2
fvm_error_i32 invalid_argument = negsuc 3
fvm_error_i32 panic = negsuc 4

-- The standard library: `{}` of `format!`, and the payload of the panic of `Option::expect`.
pub record Std : Type 0 where
  pub show_u64 : ℕ → String
  pub show_i32 : ℤ → String
  pub expect_payload : String → Payload

-- The Go functions over their own state `E`. A function that writes through a pointer returns what
-- it wrote beside its code.
pub record CgoApi (E : Type 0) : Type 0 where
  pub blockstore_get : ℕ → List ℕ → ℤ → E → (ℤ × List ℕ) × E
  pub blockstore_put : ℕ → List ℕ → ℤ → List ℕ → ℤ → E → ℤ × E
  pub blockstore_put_many : ℕ → List ℤ → ℤ → List ℕ → E → ℤ × E
  pub blockstore_has : ℕ → List ℕ → ℤ → E → ℤ × E
  pub get_chain_randomness : ℕ → ℤ → ℤ → List ℕ → ℤ → E → (ℤ × List ℕ) × E
  pub get_beacon_randomness : ℕ → ℤ → ℤ → List ℕ → ℤ → E → (ℤ × List ℕ) × E
  -- the miner id, the epoch, the fault type and the gas used
  pub verify_consensus_fault :
      ℕ → List ℕ → ℤ → List ℕ → ℤ → List ℕ → ℤ → E → (ℤ × ℕ × ℤ × ℤ × ℤ) × E
