-- ===== src/Fvm/Machine/Execute/Reply.antt =====
-- What the response to an executed message holds.
use ffi_demo.Base.{ℕ, ◌^◌, ◌<◌, ◌≡◌, Option, none, some, List, ◌∷◌, ◌++◌, arith}
use ffi_demo.Base.Bits.{join_u64, join_u64-halves}
use ffi_demo.Base.Effect.{Result, ok, err, returns}
use ffi_demo.Fvm.Shared.{FvmShared, SendParams, ReturnResult, call, return}
use ffi_demo.Fvm.Trace.{lotus_trace, call_message}
use ffi_demo.Fvm.Trace.Calls.{Calls, events, Completes, AllComplete, receipt, traces}
use ffi_demo.Fvm.Trace.Roundtrip.{build_lotus_trace-events}
use ffi_demo.Fvm.Blockstore.{CidApi}
use ffi_demo.Fvm.Engine.{ApplyRet, FvmApi}
use ffi_demo.Fvm.Machine.{FvmMachineExecuteResponse}
use ffi_demo.Fvm.Machine.Execute.{encode_trace, trace_bytes, execute_response, apply_response}

abbrev pub to_option : {A : Type 0} → Result A → Option A
to_option (ok a) = some a
to_option (err _) = none

-- If the executor's penalty and tip fit in a `u128`, the response is made, and each pair of words in
-- it joins to the amount.
pub apply_response-amounts :
    {S : FvmShared} {C : CidApi} {E : Type 0} (api : FvmApi S C E) (ret : ApplyRet S) (p t : ℕ)
    → S.amount_try_into ret.penalty ≡ some p
    → S.amount_try_into ret.miner_tip ≡ some t
    → p < 2 ^ 128
    → t < 2 ^ 128
    → (resp : FvmMachineExecuteResponse) × (apply_response api ret ≡ returns (ok resp))
      × (join_u64 resp.penalty_hi resp.penalty_lo ≡ p)
      × (join_u64 resp.miner_tip_hi resp.miner_tip_lo ≡ t)
unfolding apply_response
apply_response-amounts api ret p t hp ht lp lt = (
  execute_response api ret p t,
  rw (hp, apply_response, ht),
  join_u64-halves p lp,
  join_u64-halves t lt,
)

-- If the events of the message are those of a call with completed subcalls, the trace in the
-- response is the encoding of that call's trace, whatever events follow.
pub trace_bytes-events :
    {S : FvmShared} {C : CidApi} {E : Type 0} (api : FvmApi S C E) (p : SendParams S)
    (subcalls : Calls S) (res : ReturnResult S) (rest : List _)
    → AllComplete subcalls
    → Completes res
    → trace_bytes api (call p ∷ (events subcalls ++ (return res ∷ rest)))
      ≡ to_option
          (api.trace_to_vec (lotus_trace (call_message p) (receipt res) "" (traces subcalls)))
unfolding trace_bytes
trace_bytes-events api p subcalls res rest v c =
    rw (build_lotus_trace-events p subcalls res rest v c, encode_trace) (ground arith)
