-- ===== src/Fvm/Trace/Calls.antt =====
-- An independent description of a trace: a forest of completed calls, the events that it emits, and
-- the traces that the Lotus node expects for it.
use ffi_demo.Base.{false, ◌≡◌, List, [], ◌∷◌, ◌++◌}
use ffi_demo.Base.Int.{pos}
use ffi_demo.Fvm.Shared.{
  FvmShared, Receipt, SendParams, ReturnResult, ok_return, ok_failure, syscall_err, ExecutionEvent,
  call, return,
}
use ffi_demo.Fvm.Trace.{LotusTraces, lotus_trace, nil, cons, syscall_exit_code, call_message}

-- Each call has its subcalls, its result, and the calls after it.
pub data Calls (S : FvmShared) : Type 0 where
  no_more : Calls S
  made : SendParams S → Calls S → ReturnResult S → Calls S → Calls S

module _ {S : FvmShared} where
  unfoldable pub events : Calls S → List (ExecutionEvent S)
  events no_more = []
  events (made p subcalls res later) = call p ∷ (events subcalls ++ (return res ∷ events later))

  -- An actor cannot fail with the exit code of success.
  abbrev pub Completes : ReturnResult S → Type 0
  Completes (ok_failure code) = S.is_success code ≡ false
  Completes _ = Unit

  abbrev pub AllComplete : Calls S → Type 0
  AllComplete no_more = Unit
  AllComplete (made p subcalls res later) = AllComplete subcalls × Completes res × AllComplete later

  -- What a call leaves on chain; no gas is reported.
  abbrev pub receipt : ReturnResult S → Receipt S
  receipt (ok_return bytes) = record {
    exit_code = S.exit_ok;
    return_data = bytes;
    gas_used = pos 0;
  }
  receipt (ok_failure code) = record { exit_code = code; return_data = []; gas_used = pos 0 }
  receipt (syscall_err n) = record {
    exit_code = syscall_exit_code S n;
    return_data = [];
    gas_used = pos 0;
  }

  unfoldable pub traces : Calls S → LotusTraces S
  traces no_more = nil
  traces (made p subcalls res later) =
      cons (lotus_trace (call_message p) (receipt res) "" (traces subcalls)) (traces later)
