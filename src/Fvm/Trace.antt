-- ===== src/Fvm/Trace.antt =====
-- rust/src/fvm/machine.rs: `LotusTrace` and `build_lotus_trace`, which nests a flat list of events.
pub mod Calls
pub mod Fuel
pub mod Roundtrip
pub mod Sound
use ffi_demo.Base.{ℕ, zero, suc, String, Option, none, some, List, [], ◌∷◌, length, if◌then◌else◌}
use ffi_demo.Base.Int.{pos}
use ffi_demo.Base.Effect.{Error, message, Result, ok, err}
use ffi_demo.Fvm.Shared.{
  FvmShared, ErrorNumber, insufficient_funds, not_found, illegal_argument, illegal_operation,
  limit_exceeded, assertion_failed, invalid_handle, illegal_cid, illegal_codec, serialization,
  forbidden, Message, Receipt, SendParams, ReturnResult, ok_return, ok_failure, syscall_err,
  ExecutionEvent, call, return, other_event,
}

-- The exit code for the error number of a system call.
unfoldable pub syscall_exit_code : (S : FvmShared) → ErrorNumber → S.ExitCode
syscall_exit_code S insufficient_funds = S.sys_insufficient_funds
syscall_exit_code S not_found = S.sys_invalid_receiver
syscall_exit_code S illegal_argument = S.sys_assertion_failed
syscall_exit_code S illegal_operation = S.sys_assertion_failed
syscall_exit_code S limit_exceeded = S.sys_assertion_failed
syscall_exit_code S assertion_failed = S.sys_assertion_failed
syscall_exit_code S invalid_handle = S.sys_assertion_failed
syscall_exit_code S illegal_cid = S.sys_assertion_failed
syscall_exit_code S illegal_codec = S.sys_assertion_failed
syscall_exit_code S serialization = S.sys_assertion_failed
syscall_exit_code S forbidden = S.sys_assertion_failed

module _ (S : FvmShared) where
  mutual
    pub data LotusTrace : Type 0 where
      lotus_trace : Message S → Receipt S → String → LotusTraces → LotusTrace

    -- `Vec<LotusTrace>`
    pub data LotusTraces : Type 0 where
      nil : LotusTraces
      cons : LotusTrace → LotusTraces → LotusTraces

-- The result beside what is left of the iterator; `none` means that the fuel ran out.
abbrev pub Built : FvmShared → Type 0
Built S = Option (Result (LotusTrace S) × List (ExecutionEvent S))

module _ {S : FvmShared} where
  -- `Vec::push`
  unfoldable pub push : LotusTraces S → LotusTrace S → LotusTraces S
  push nil t = cons t nil
  push (cons u us) t = cons u (push us t)

  -- `new_trace.subcalls.push(..)`
  unfoldable pub push_subcall : LotusTrace S → LotusTrace S → LotusTrace S
  push_subcall (lotus_trace m r e us) t = lotus_trace m r e (push us t)

  -- `new_trace.msg_receipt = ..`
  unfoldable pub set_receipt : LotusTrace S → Receipt S → LotusTrace S
  set_receipt (lotus_trace m _ e us) r = lotus_trace m r e us

  -- The receipt of a return event, or the early return of an error.
  unfoldable pub receipt_of : ReturnResult S → Result (Receipt S)
  unfolding syscall_exit_code
  receipt_of (ok_return bytes) =
      ok (record { exit_code = S.exit_ok; return_data = bytes; gas_used = pos 0 })
  receipt_of (ok_failure code) =
      if S.is_success code
      then err (message "actor failed with status OK")
      else ok (record { exit_code = code; return_data = []; gas_used = pos 0 })
  receipt_of (syscall_err n) =
      ok (record { exit_code = syscall_exit_code S n; return_data = []; gas_used = pos 0 })

  -- The message of a call event.
  unfoldable pub call_message : SendParams S → Message S
  call_message p = record {
    version = 0;
    from = S.new_id p.from;
    to = p.to;
    sequence = 0;
    value = p.value;
    method_num = p.method;
    params = p.params;
    gas_limit = 0;
    gas_fee_cap = S.default_amount;
    gas_premium = S.default_amount;
  }

  -- The literal of `new_trace`.
  abbrev pub new_trace : SendParams S → LotusTrace S
  new_trace p =
      lotus_trace (call_message p)
        (record { exit_code = S.exit_ok; return_data = []; gas_used = pos 0 }) "" nil

  -- `new_trace`, or the error for an event of another kind.
  unfoldable pub open_trace : ExecutionEvent S → Result (LotusTrace S)
  unfolding call_message
  open_trace (call p) = ok (new_trace p)
  open_trace (return _) = err (message "expected ExecutionEvent of type Call")
  open_trace other_event = err (message "expected ExecutionEvent of type Call")

  -- The body of `build_lotus_trace`, over the `while` loop that it enters.
  unfoldable pub enter :
      (LotusTrace S → List (ExecutionEvent S) → Built S)
      → ExecutionEvent S
      → List (ExecutionEvent S)
      → Built S
  unfolding open_trace
  enter loop ev iter = elim (open_trace ev) [ ok t ↦ loop t iter | err e ↦ some (err e, iter) ]

  -- The arm of a return event.
  unfoldable pub close_trace : LotusTrace S → ReturnResult S → Result (LotusTrace S)
  unfolding receipt_of set_receipt
  close_trace t res = elim (receipt_of res) [ ok r ↦ ok (set_receipt t r) | err e ↦ err e ]

  -- The `?` on the recursive call, and the push of its trace.
  unfoldable pub after_subcall :
      (LotusTrace S → List (ExecutionEvent S) → Built S) → LotusTrace S → Built S → Built S
  unfolding push_subcall push
  after_subcall loop t none = none
  after_subcall loop t (some (err e, iter)) = some (err e, iter)
  after_subcall loop t (some (ok sub, iter)) = loop (push_subcall t sub) iter

  -- `while let Some(trace) = trace_iter.next()`
  unfoldable pub trace_loop : ℕ → LotusTrace S → List (ExecutionEvent S) → Built S
  unfolding enter close_trace after_subcall
  trace_loop zero t iter = none
  trace_loop (suc f) t [] =
      some (err (message "should have returned on an ExecutionEvent:Return"), [])
  trace_loop (suc f) t (return res ∷ iter) = some (close_trace t res, iter)
  trace_loop (suc f) t (call p ∷ iter) =
      after_subcall (trace_loop f) t (enter (trace_loop f) (call p) iter)
  trace_loop (suc f) t (other_event ∷ iter) =
      after_subcall (trace_loop f) t (enter (trace_loop f) other_event iter)

  -- Each round of the loop consumes an event, so the fuel is the length of the iterator and one.
  unfoldable pub build_lotus_trace : ExecutionEvent S → List (ExecutionEvent S) → Built S
  unfolding trace_loop
  build_lotus_trace new_call iter = enter (trace_loop (suc (length iter))) new_call iter
