-- ===== src/Fvm/Engine.antt =====
-- What rust/src/fvm/machine.rs uses of the crates `fvm` and `fvm_ipld_car`, over the state `E` of the
-- Go side: a parameter of the model.
use ffi_demo.Base.{ℕ, String, Option, List}
use ffi_demo.Base.Int.{ℤ}
use ffi_demo.Base.Map.{Map}
use ffi_demo.Base.Effect.{Result, Unwind}
use ffi_demo.Fvm.Shared.{FvmShared, Message, Receipt, ExecutionEvent}
use ffi_demo.Fvm.Trace.{LotusTrace}
use ffi_demo.Fvm.Blockstore.{CidApi, Blockstore}

-- `NetworkVersion`, with the variants that the source names.
pub data NetworkVersion : Type 0 where
  v14 v15 v16 : NetworkVersion
  other_version : ℕ → NetworkVersion

pub data ApplyKind : Type 0 where
  explicit implicit : ApplyKind

-- `fvm::executor::ApplyRet`; the failure info is kept as its display.
pub record ApplyRet (S : FvmShared) : Type 0 where
  pub msg_receipt : Receipt S
  pub penalty : S.TokenAmount
  pub miner_tip : S.TokenAmount
  pub exec_trace : List (ExecutionEvent S)
  pub failure_info : Option String

pub record FvmApi (S : FvmShared) (C : CidApi) (E : Type 0) : Type 1 where
  pub NetworkConfig : Type 0
  pub MachineContext : Type 0
  pub Machine : Type 0
  pub Executor : Type 0
  -- `NetworkVersion::try_from` of a `u32`
  pub network_version_try_from : ℕ → Option NetworkVersion
  pub network_config_new : NetworkVersion → NetworkConfig
  pub override_actors : C.Cid → NetworkConfig → NetworkConfig
  pub for_epoch : ℤ → C.Cid → NetworkConfig → MachineContext
  pub set_base_fee : S.TokenAmount → MachineContext → MachineContext
  pub set_circulating_supply : S.TokenAmount → MachineContext → MachineContext
  pub enable_tracing : MachineContext → MachineContext
  -- the archives of the builtin actors
  pub bundle_car_v6 : List ℕ
  pub bundle_car_v7 : List ℕ
  -- `load_car` into any store, awaited
  pub load_car :
      {Block : Type 0} (B : Blockstore C Block)
      → List ℕ
      → B.State
      → Unwind (Result (List C.Cid)) × B.State
  -- `DefaultMachine::new` over the overlay's map, the handle of the store and that of the externs
  pub machine_new : MachineContext → Map C.Cid (List ℕ) → ℕ → ℕ → E → Unwind (Result Machine) × E
  pub executor_new : Machine → Executor
  -- `fvm_ipld_encoding::from_slice` and `to_vec`
  pub message_from_slice : List ℕ → Result (Message S)
  pub trace_to_vec : LotusTrace S → Result (List ℕ)
  -- the executor after the call, also if it unwound
  pub execute_message :
      Message S → ApplyKind → ℕ → Executor → E → Unwind (Result (ApplyRet S)) × Executor × E
  pub flush : Executor → E → Unwind (Result C.Cid) × Executor × E
