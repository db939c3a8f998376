-- ===== src/Fvm/Machine.antt =====
-- rust/src/fvm/types.rs, and the lock around the executor in rust/src/fvm/machine.rs.
pub mod Create
pub mod Execute
pub mod Threads
use ffi_demo.Base.{ℕ, String, Bool, true, false, Option, none, some, List}
use ffi_demo.Base.Effect.{owned, Result, Unwind, returns, panics, Exec, panic}
use ffi_demo.Util.World.{World}
use ffi_demo.Util.Response.{Default}
use ffi_demo.Fvm.Cgo.{Std}

pub data FvmRegisteredVersion : Type 0 where
  v1 : FvmRegisteredVersion

-- `std::sync::Mutex`
pub record Mutex (A : Type 0) : Type 0 where
  pub poisoned : Bool
  pub inner : A

pub record InnerFvmMachine (Executor : Type 0) : Type 0 where
  pub machine : Option (Mutex Executor)

-- `Option<repr_c::Box<InnerFvmMachine>>`
abbrev pub FvmMachine : Type 0 → Type 0
FvmMachine Executor = Option (InnerFvmMachine Executor)

pub record FvmMachineExecuteResponse : Type 0 where
  pub exit_code : ℕ
  pub return_val : Option (List ℕ)
  pub gas_used : ℕ
  pub penalty_hi : ℕ
  pub penalty_lo : ℕ
  pub miner_tip_hi : ℕ
  pub miner_tip_lo : ℕ
  pub exec_trace : Option (List ℕ)
  pub failure_info : Option String

-- `#[derive(Default)]`
instance abbrev pub execute_response_default : Default FvmMachineExecuteResponse
execute_response_default = record {
  default = record {
    exit_code = 0;
    return_val = none;
    gas_used = 0;
    penalty_hi = 0;
    penalty_lo = 0;
    miner_tip_hi = 0;
    miner_tip_lo = 0;
    exec_trace = none;
    failure_info = none;
  };
}

-- The state outside of a call on a machine: that of the Go side, and the machine.
pub record Host (E Executor : Type 0) : Type 0 where
  pub go : E
  pub machine : InnerFvmMachine Executor

-- Dropping the guard in a panic poisons the lock.
abbrev pub poisons {ℓ} : {A : Type ℓ} → Unwind A → Bool
poisons (returns _) = false
poisons (panics _) = true

-- What runs under the guard, from the executor and the Go side to both.
abbrev pub Guarded : Type 0 → Type 0 → Type 0 → Type 0
Guarded E Executor A = Executor → E → Unwind (Result A) × Executor × E

module _ (F : Std) {E Executor A : Type 0} (body : Guarded E Executor A) where
  -- The closure with the guard, which is dropped at its end.
  unfoldable pub run_guarded : Executor → Exec (World (Host E Executor)) A
  run_guarded x w =
      let (r, x', go) = body x w.ext.go in
      (
        r,
        record w {
          ext = record {
            go = go;
            machine = record { machine = some (record { poisoned = poisons r; inner = x' }) };
          };
        },
      )

  -- `.lock().unwrap()`
  lock_unwrap : Bool → Executor → Exec (World (Host E Executor)) A
  unfolding run_guarded
  lock_unwrap true x = panic (owned "called `Result::unwrap()` on an `Err` value")
  lock_unwrap false x = run_guarded x

  -- `executor.machine.as_ref().expect("missing executor")`
  lock_machine : Option (Mutex Executor) → Exec (World (Host E Executor)) A
  unfolding lock_unwrap
  lock_machine none = panic (F.expect_payload "missing executor")
  lock_machine (some m) = lock_unwrap m.poisoned m.inner

  -- The executor of the machine under its lock.
  unfoldable pub with_executor : Exec (World (Host E Executor)) A
  unfolding lock_machine
  with_executor w = lock_machine w.ext.machine.machine w
