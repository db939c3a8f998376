-- ===== src/Fvm/Trace/Roundtrip.antt =====
-- `build_lotus_trace` reads back the events of every completed call.
use ffi_demo.Base.{
  ℕ, zero, suc, ◌<◌, ◌≡◌, refl, ap, some, List, ◌∷◌, ◌++◌, append_assoc, length, length-append,
  arith,
}
use ffi_demo.Base.Effect.{ok}
use ffi_demo.Fvm.Shared.{
  FvmShared, Message, Receipt, SendParams, ReturnResult, ok_return, ok_failure, syscall_err,
  ExecutionEvent, call, return,
}
use ffi_demo.Fvm.Trace.{
  LotusTrace, LotusTraces, lotus_trace, nil, cons, push, call_message, close_trace, after_subcall,
  trace_loop, build_lotus_trace,
}
use ffi_demo.Fvm.Trace.Calls.{Calls, no_more, made, events, Completes, AllComplete, receipt, traces}

module _ {S : FvmShared} where
  abbrev pub append : LotusTraces S → LotusTraces S → LotusTraces S
  append nil vs = vs
  append (cons u us) vs = cons u (append us vs)

  pub append-nil : (us : LotusTraces S) → append us nil ≡ us
  append-nil nil = refl
  append-nil (cons u us) = ap (cons u) (append-nil us)

  pub append-push :
      (us : LotusTraces S) (t : LotusTrace S) (vs : LotusTraces S)
      → append (push us t) vs ≡ append us (cons t vs)
  unfolding push
  append-push nil t vs = refl
  append-push (cons u us) t vs = ap (cons u) (append-push us t vs)

  pub close_trace-receipt :
      (m : Message S) (r : Receipt S) (us : LotusTraces S) (res : ReturnResult S)
      → Completes res
      → close_trace (lotus_trace m r "" us) res ≡ ok (lotus_trace m (receipt res) "" us)
  unfolding close_trace
  close_trace-receipt m r us (ok_return bytes) h = refl
  close_trace-receipt m r us (ok_failure code) h = rw (h, close_trace)
  close_trace-receipt m r us (syscall_err n) h = refl

  trace_loop-events :
      (cs : Calls S) (f : ℕ) (m : Message S) (r : Receipt S) (us : LotusTraces S)
      (res : ReturnResult S) (rest : List (ExecutionEvent S))
      → AllComplete cs
      → Completes res
      → length (events cs ++ (return res ∷ rest)) < f
      → trace_loop f (lotus_trace m r "" us) (events cs ++ (return res ∷ rest))
        ≡ some (ok (lotus_trace m (receipt res) "" (append us (traces cs))), rest)
  unfolding events traces trace_loop
  trace_loop-events cs zero m r us res rest v c h = absurd (omega arith)
  trace_loop-events no_more (suc f) m r us res rest v c h =
      rw (close_trace-receipt m r us res c, append-nil us)
  trace_loop-events (made p subs sub_res later) (suc f) m r us res rest v c h =
      let tail = return res ∷ rest in
      let e = append_assoc (events subs) (return sub_res ∷ events later) tail in
      let fits = ap length e in
      let (v1, c1, v2) = v in
      rw (
        e,
        trace_loop-events subs f (call_message p) _ nil sub_res (events later ++ tail) v1 c1
            (omega (arith, fits)),
        after_subcall,
        trace_loop-events later f m r
            (push us (lotus_trace (call_message p) (receipt sub_res) "" (traces subs))) res rest v2
            c
            (omega
              (arith, fits, length-append (events subs) (return sub_res ∷ (events later ++ tail)))),
        append-push,
      )

  -- The trace of a call is rebuilt from the call event and the events that follow it: its subcalls,
  -- complete and in order, its return, and then whatever comes after, which is left in the iterator.
  pub build_lotus_trace-events :
      (p : SendParams S) (subcalls : Calls S) (res : ReturnResult S)
      (rest : List (ExecutionEvent S))
      → AllComplete subcalls
      → Completes res
      → build_lotus_trace (call p) (events subcalls ++ (return res ∷ rest))
        ≡ some (ok (lotus_trace (call_message p) (receipt res) "" (traces subcalls)), rest)
  unfolding build_lotus_trace
  build_lotus_trace-events p subcalls res rest v c =
      trace_loop-events subcalls (suc (length (events subcalls ++ (return res ∷ rest))))
        (call_message p) _ nil res rest v c (omega arith)
