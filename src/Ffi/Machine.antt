-- ===== src/Ffi/Machine.antt =====
-- fvm.go over cgo/fvm.go: a machine of the Rust library with the externs that it was made for. The
-- state outside of the Rust library is the registry of cgo/registry.go.
pub mod Apply
pub mod Create
pub mod Ends
use ffi_demo.Base.{ℕ, String, ◌<>◌, Bool, Option, none, some, List, []}
use ffi_demo.Base.Int.{ℤ, as_i64, as_u64}
use ffi_demo.Base.Effect.{message, Error, display, Result, ok, err, Exec}
use ffi_demo.Util.World.{World}
use ffi_demo.Util.Response.{FcpResponseStatus, no_error, Response}
use ffi_demo.Fvm.Cgo.{Std}
use ffi_demo.Fvm.Shared.{FvmShared}
use ffi_demo.Fvm.Blockstore.{CidApi}
use ffi_demo.Fvm.Engine.{FvmApi}
use ffi_demo.Fvm.Machine.{FvmRegisteredVersion, FvmMachine, FvmMachineExecuteResponse, Host}
use ffi_demo.Fvm.Machine.Create.{CreateArgs}
use ffi_demo.Fvm.Machine.Create as RustCreate
use ffi_demo.Fvm.Machine.Execute as RustExecute
use ffi_demo.Go.{Externs, GoState, register, unregister}
use ffi_demo.Go.Store.{GoApi}
use ffi_demo.Go.Chain.{go_side}
use ffi_demo.Ffi.BigInt.{split_big_int, reform_big_int}

-- `CheckErr` beside the value; an exported function returns a box, so the response is not nil.
unfoldable pub check_err {ℓ} : {T : Type ℓ} → Response T → Result T
check_err resp = elim resp.status_code [
  | no_error ↦ ok resp.value
  | _ ↦ err (message resp.error_msg)
]

-- `xerrors.Errorf("<prefix>%w", err)`
unfoldable pub wrap {ℓ} : {T : Type ℓ} → String → Result T → Result T
wrap prefix (ok a) = ok a
wrap prefix (err e) = err (message (prefix <> display e))

-- `iota`
abbrev pub apply_explicit : ℕ
apply_explicit = 0

abbrev pub apply_implicit : ℕ
apply_implicit = 1

-- A CID is the string of its bytes. The version is the one that the Rust enum has.
pub record FvmOpts (Address U : Type 0) : Type 0 where
  pub fvm_version : FvmRegisteredVersion
  pub externs : Externs Address U
  pub epoch : ℤ
  pub base_fee : ℤ
  pub base_circ_supply : ℤ
  pub network_version : ℕ
  pub state_base : List ℕ
  pub manifest : List ℕ
  pub tracing : Bool

-- `FVM`, with the handle that its finalizer captures
pub record Fvm (Executor : Type 0) : Type 0 where
  pub executor : FvmMachine Executor
  pub handle : ℕ

-- `none` is a nil slice.
pub record GoApplyRet : Type 0 where
  pub return : Option (List ℕ)
  pub exit_code : ℕ
  pub gas_used : ℤ
  pub miner_penalty : ℤ
  pub miner_tip : ℤ
  pub exec_trace_bytes : Option (List ℕ)
  pub failure_info : String

-- `string(r.failure_info.slice())`, also of a null pointer
abbrev pub text_of : Option String → String
text_of none = ""
text_of (some s) = s

-- `ApplyRet` from the response
unfoldable pub go_apply_ret : FvmMachineExecuteResponse → GoApplyRet
unfolding reform_big_int
go_apply_ret resp = record {
  return = resp.return_val;
  exit_code = resp.exit_code;
  gas_used = as_i64 resp.gas_used;
  miner_penalty = reform_big_int resp.penalty_hi resp.penalty_lo;
  miner_tip = reform_big_int resp.miner_tip_hi resp.miner_tip_lo;
  exec_trace_bytes = resp.exec_trace;
  failure_info = text_of resp.failure_info;
}

-- an implicit message's, without the trace
unfoldable pub go_apply_ret_implicit : FvmMachineExecuteResponse → GoApplyRet
unfolding go_apply_ret
go_apply_ret_implicit resp = record (go_apply_ret resp) { exec_trace_bytes = none }

unfoldable pub map_result {ℓ κ} : {A : Type ℓ} {B : Type κ} → (A → B) → Result A → Result B
map_result f (ok a) = ok (f a)
map_result f (err e) = err e

-- The finalizer. `Destroy` frees the machine, which nothing reaches any more.
unfoldable pub finalize :
    {Address U X : Type 0} → Fvm X → GoState Address U → Fvm X × GoState Address U
finalize f s = elim f.executor [
  | none ↦ (f, s)
  | some m ↦ (record f { executor = none }, unregister f.handle s)
]

module _ (F : Std) {S : FvmShared} {C : CidApi} where
  module _ {Address U : Type 0} (G : GoApi Address) (api : FvmApi S C (GoState Address U))
      {Block : Type 0} (put : C.Code → Block → Exec (GoState Address U) C.Cid)
      (put_many : List (C.Code × Block) → Exec (GoState Address U) (Unit {0}))
      (show : ℤ → String) where
    -- The call, with one handle for the store and for the externs.
    unfoldable pub create_args : FvmOpts Address U → ℕ × ℕ → ℕ × ℕ → ℕ → CreateArgs
    create_args opts (fee_hi, fee_lo) (supply_hi, supply_lo) ex_handle = record {
      fvm_version = opts.fvm_version;
      chain_epoch = as_u64 opts.epoch;
      base_fee_hi = fee_hi;
      base_fee_lo = fee_lo;
      base_circ_supply_hi = supply_hi;
      base_circ_supply_lo = supply_lo;
      network_version = opts.network_version;
      state_root = opts.state_base;
      manifest_cid = opts.manifest;
      tracing = opts.tracing;
      blockstore_id = ex_handle;
      externs_id = ex_handle;
    }

    -- `cgo.CreateFvmMachine`, and the `FVM` with its finalizer
    unfoldable pub create_machine :
        CreateArgs
        → World (GoState Address U)
        → Result (Fvm api.Executor) × World (GoState Address U)
    unfolding check_err map_result
    create_machine args w =
        let (resp, w') = RustCreate.create_fvm_machine F api (go_side G) put put_many args w in
        (
          map_result (λ executor. record { executor = executor; handle = args.externs_id })
              (check_err resp),
          w',
        )

    -- What follows the two amounts.
    unfoldable pub register_and_create :
        FvmOpts Address U
        → ℕ × ℕ
        → ℕ × ℕ
        → World (GoState Address U)
        → Result (Fvm api.Executor) × World (GoState Address U)
    unfolding create_args create_machine
    register_and_create opts fee supply w =
        let (ex_handle, go) = register opts.externs w.ext in
        create_machine (create_args opts fee supply ex_handle) (record w { ext = go })

    unfoldable pub create_fvm :
        FvmOpts Address U
        → World (GoState Address U)
        → Result (Fvm api.Executor) × World (GoState Address U)
    unfolding wrap split_big_int register_and_create
    create_fvm opts w = elim (wrap "invalid basefee: " (split_big_int show opts.base_fee)) [
      | err e ↦ (err e, w)
      | ok fee ↦ elim (wrap "invalid circ supply: " (split_big_int show opts.base_circ_supply)) [
        | err e ↦ (err e, w)
        | ok supply ↦ register_and_create opts fee supply w
      ]
    ]

  -- The methods of an `FVM` whose machine is that of the state.
  module _ {E : Type 0} (api : FvmApi S C E) where
    unfoldable pub apply_message :
        List ℕ → ℕ → World (Host E api.Executor) → Result GoApplyRet × World (Host E api.Executor)
    unfolding check_err map_result go_apply_ret
    apply_message msg_bytes chain_len w =
        let (resp, w') =
          RustExecute.fvm_machine_execute_message F api msg_bytes chain_len apply_explicit w in
        (map_result go_apply_ret (check_err resp), w')

    unfoldable pub apply_implicit_message :
        List ℕ → World (Host E api.Executor) → Result GoApplyRet × World (Host E api.Executor)
    unfolding check_err map_result go_apply_ret_implicit
    apply_implicit_message msg_bytes w =
        let (resp, w') =
          RustExecute.fvm_machine_execute_message F api msg_bytes 0 apply_implicit w in
        (map_result go_apply_ret_implicit (check_err resp), w')

    -- `cid.Cast` is the library's.
    cast_root : {Cid : Type 0} → (List ℕ → Result Cid) → Result (List ℕ) → Result Cid
    cast_root cast (ok bytes) = cast bytes
    cast_root cast (err e) = err e

    unfoldable pub flush :
        {Cid : Type 0}
        → (List ℕ → Result Cid)
        → World (Host E api.Executor)
        → Result Cid × World (Host E api.Executor)
    unfolding check_err cast_root
    flush cast w =
        let (resp, w') = RustExecute.fvm_machine_flush F api w in
        (cast_root cast (check_err resp), w')
