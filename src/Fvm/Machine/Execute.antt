-- ===== src/Fvm/Machine/Execute.antt =====
-- rust/src/fvm/machine.rs: `fvm_machine_execute_message` and `fvm_machine_flush`.
pub mod Poison
pub mod Outcome
pub mod Reply
use ffi_demo.Base.{
  ℕ, String, Bool, true, false, Option, none, some, List, [], ◌∷◌, ◌==◌, if◌then◌else◌,
}
use ffi_demo.Base.Bits.{high_u64, low_u64}
use ffi_demo.Base.Int.{as_u64}
use ffi_demo.Base.Effect.{owned, Result, ok, err, Unwind, returns, panics, Exec, lift, ◌>>=◌}
use ffi_demo.Util.World.{World}
use ffi_demo.Util.Response.{Response, list_default}
use ffi_demo.Util.CatchPanic.{catch_panic_response}
use ffi_demo.Fvm.Cgo.{Std}
use ffi_demo.Fvm.Shared.{FvmShared, Message, Receipt, ExecutionEvent}
use ffi_demo.Fvm.Trace.{LotusTrace, Built, build_lotus_trace}
use ffi_demo.Fvm.Blockstore.{CidApi}
use ffi_demo.Fvm.Engine.{ApplyKind, explicit, implicit, ApplyRet, FvmApi}
use ffi_demo.Fvm.Machine.{
  FvmMachineExecuteResponse, execute_response_default, Host, Guarded, with_executor,
}

-- 0: explicit, any other: implicit
unfoldable pub apply_kind_of : ℕ → ApplyKind
apply_kind_of apply_kind = if apply_kind == 0 then explicit else implicit

-- An empty return value is no return value.
unfoldable pub return_bytes : List ℕ → Option (List ℕ)
return_bytes [] = none
return_bytes (b ∷ bytes) = some (b ∷ bytes)

-- `try_into().unwrap()`
unfoldable pub unwrap_u128 : {A : Type 0} → Option ℕ → (ℕ → Unwind (Result A)) → Unwind (Result A)
unwrap_u128 none k = panics (owned "called `Result::unwrap()` on an `Err` value")
unwrap_u128 (some n) k = k n

module _ {S : FvmShared} {C : CidApi} {E : Type 0} (api : FvmApi S C E) where
  -- `.ok().and_then(|t| to_vec(&t).ok())`
  encode_trace : Built S → Option (List ℕ)
  encode_trace (some (ok t, _)) = elim (api.trace_to_vec t) [ ok bytes ↦ some bytes | err _ ↦ none ]
  encode_trace _ = none

  -- The trace of the message, if there are events and they nest.
  unfoldable pub trace_bytes : List (ExecutionEvent S) → Option (List ℕ)
  unfolding encode_trace
  trace_bytes [] = none
  trace_bytes (new_call ∷ trace_iter) = encode_trace (build_lotus_trace new_call trace_iter)

  -- The response, from the amounts as `u128`.
  unfoldable pub execute_response : ApplyRet S → ℕ → ℕ → FvmMachineExecuteResponse
  unfolding trace_bytes return_bytes
  execute_response ret penalty miner_tip = record {
    exit_code = S.exit_value ret.msg_receipt.exit_code;
    return_val = return_bytes ret.msg_receipt.return_data;
    gas_used = as_u64 ret.msg_receipt.gas_used;
    penalty_hi = high_u64 penalty;
    penalty_lo = low_u64 penalty;
    miner_tip_hi = high_u64 miner_tip;
    miner_tip_lo = low_u64 miner_tip;
    exec_trace = trace_bytes ret.exec_trace;
    failure_info = ret.failure_info;
  }

  unfoldable pub apply_response : ApplyRet S → Unwind (Result FvmMachineExecuteResponse)
  unfolding unwrap_u128 execute_response
  apply_response ret = unwrap_u128 (S.amount_try_into ret.penalty) λ penalty.
      unwrap_u128 (S.amount_try_into ret.miner_tip)
        λ miner_tip. returns (ok (execute_response ret penalty miner_tip))

  -- The `?` on `execute_message`, and the rest of the closure.
  unfoldable pub after_execute :
      Unwind (Result (ApplyRet S)) → Unwind (Result FvmMachineExecuteResponse)
  unfolding apply_response
  after_execute (returns (ok ret)) = apply_response ret
  after_execute (returns (err e)) = returns (err e)
  after_execute (panics p) = panics p

  unfoldable pub execute_guarded :
      ApplyKind → ℕ → Message S → Guarded E api.Executor FvmMachineExecuteResponse
  unfolding after_execute
  execute_guarded kind chain_len m x go =
      let (r, x', go') = api.execute_message m kind chain_len x go in (after_execute r, x', go')

  -- `Ok(cid.to_bytes())`
  after_flush : Unwind (Result C.Cid) → Unwind (Result (List ℕ))
  after_flush (returns (ok cid)) = returns (ok (C.to_bytes cid))
  after_flush (returns (err e)) = returns (err e)
  after_flush (panics p) = panics p

  unfoldable pub flush_guarded : Guarded E api.Executor (List ℕ)
  unfolding after_flush
  flush_guarded x go = let (r, x', go') = api.flush x go in (after_flush r, x', go')

module _ (F : Std) {S : FvmShared} {C : CidApi} {E : Type 0} (api : FvmApi S C E) where
  unfoldable pub execute_body :
      List ℕ → ℕ → ℕ → Exec (World (Host E api.Executor)) FvmMachineExecuteResponse
  unfolding apply_kind_of with_executor execute_guarded
  execute_body message chain_len apply_kind = do
    m ← lift (api.message_from_slice message)
    with_executor F (execute_guarded api (apply_kind_of apply_kind) chain_len m)

  unfoldable pub fvm_machine_execute_message :
      List ℕ
      → ℕ
      → ℕ
      → World (Host E api.Executor)
      → Response FvmMachineExecuteResponse × World (Host E api.Executor)
  unfolding catch_panic_response execute_body
  fvm_machine_execute_message message chain_len apply_kind =
      catch_panic_response "fvm_machine_execute_message" (execute_body message chain_len apply_kind)

  unfoldable pub fvm_machine_flush :
      World (Host E api.Executor) → Response (List ℕ) × World (Host E api.Executor)
  unfolding catch_panic_response with_executor flush_guarded
  fvm_machine_flush = catch_panic_response "fvm_machine_flush" (with_executor F (flush_guarded api))
