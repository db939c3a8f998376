-- ===== src/Fvm/Trace/Sound.antt =====
-- What `build_lotus_trace` returns is the trace of the events that it consumed.
use ffi_demo.Base.{
  ℕ, zero, suc, ◌≡◌, refl, ap, ◌∙◌, some, none, List, [], ◌∷◌, ◌++◌, append_assoc, length, arith,
}
use ffi_demo.Base.Effect.{ok, err}
use ffi_demo.Fvm.Shared.{
  FvmShared, Message, Receipt, SendParams, ReturnResult, ok_return, ok_failure, syscall_err,
  ExecutionEvent, call, return, other_event,
}
use ffi_demo.Fvm.Trace.{
  LotusTrace, LotusTraces, lotus_trace, Built, nil, push, push_subcall, call_message, close_trace,
  after_subcall, trace_loop, build_lotus_trace,
}
use ffi_demo.Fvm.Trace.Calls.{Calls, no_more, made, events, Completes, AllComplete, receipt, traces}
use ffi_demo.Fvm.Trace.Roundtrip.{append, append-nil, append-push}

module _ {S : FvmShared} where
  -- The loop has read these calls and this return, and built their trace.
  record Read (m : Message S) (us : LotusTraces S) (iter : List (ExecutionEvent S))
      (t : LotusTrace S) (rest : List (ExecutionEvent S)) : Type 0 where
    subcalls : Calls S
    res : ReturnResult S
    complete : AllComplete subcalls
    completes : Completes res
    consumed : iter ≡ events subcalls ++ (return res ∷ rest)
    built : t ≡ lotus_trace m (receipt res) "" (append us (traces subcalls))

  -- A subcall read whole, then the rest of the loop.
  Read-call :
      (p : SendParams S) {m : Message S} {us : LotusTraces S} {sub t : LotusTrace S}
      {iter iter' rest : List (ExecutionEvent S)}
      → Read (call_message p) nil iter sub iter'
      → Read m (push us sub) iter' t rest
      → Read m us (call p ∷ iter) t rest
  unfolding events traces
  Read-call p {us = us} a b = record {
    subcalls = made p a.subcalls a.res b.subcalls;
    res = b.res;
    complete = (a.complete, a.completes, b.complete);
    completes = b.completes;
    consumed = ap (◌∷◌ (call p)) (a.consumed ∙ rw (b.consumed, append_assoc));
    built = b.built ∙ rw (a.built, append-push);
  }

  close_trace-Completes :
      (m : Message S) (r : Receipt S) (us : LotusTraces S) (res : ReturnResult S) (t : LotusTrace S)
      → close_trace (lotus_trace m r "" us) res ≡ ok t
      → Completes res × (t ≡ lotus_trace m (receipt res) "" us)
  unfolding close_trace
  close_trace-Completes m r us (ok_return bytes) t h = (tt, cc)
  close_trace-Completes m r us (ok_failure code) t h = ground arith
  close_trace-Completes m r us (syscall_err n) t h = (tt, cc)

  -- A subcall that was read, and a loop that went on from it.
  after_subcall-ok :
      (loop : LotusTrace S → List (ExecutionEvent S) → Built S) (t : LotusTrace S) (b : Built S)
      (u : LotusTrace S) (rest : List (ExecutionEvent S))
      → after_subcall loop t b ≡ some (ok u, rest)
      → (sub : LotusTrace S) × (iter : List (ExecutionEvent S)) × (b ≡ some (ok sub, iter))
        × (loop (push_subcall t sub) iter ≡ some (ok u, rest))
  unfolding after_subcall
  after_subcall-ok loop t none u rest h = absurd (cc)
  after_subcall-ok loop t (some (err e, iter)) u rest h = absurd (cc)
  after_subcall-ok loop t (some (ok sub, iter)) u rest h = (sub, iter, refl, h)

  trace_loop-Read :
      (f : ℕ) (m : Message S) (r : Receipt S) (us : LotusTraces S) (iter : List (ExecutionEvent S))
      (t : LotusTrace S) (rest : List (ExecutionEvent S))
      → trace_loop f (lotus_trace m r "" us) iter ≡ some (ok t, rest)
      → Read m us iter t rest
  unfolding trace_loop events traces
  trace_loop-Read zero m r us iter t rest h = absurd (cc)
  trace_loop-Read (suc f) m r us [] t rest h = absurd (cc)
  trace_loop-Read (suc f) m r us (return res ∷ iter) t rest h =
      let (c, b) = close_trace-Completes m r us res t (cc) in
      record {
        subcalls = no_more;
        res = res;
        complete = tt;
        completes = c;
        consumed = cc;
        built = rw append-nil b;
      }
  trace_loop-Read (suc f) m r us (call p ∷ iter) t rest h =
      let (sub, iter', e, e') =
        after_subcall-ok (trace_loop f) (lotus_trace m r "" us) _ t rest h in
      Read-call p (trace_loop-Read f (call_message p) _ nil iter sub iter' e)
        (trace_loop-Read f m r (push us sub) iter' t rest e')
  trace_loop-Read (suc f) m r us (other_event ∷ iter) t rest h = absurd (cc)

-- A successful `build_lotus_trace` started at a call, and there are completed subcalls and a return
-- such that it consumed exactly their events and returned exactly their trace.
pub build_lotus_trace_sound :
    {S : FvmShared} (ev : ExecutionEvent S) (iter : List (ExecutionEvent S)) (t : LotusTrace S)
    (rest : List (ExecutionEvent S))
    → build_lotus_trace ev iter ≡ some (ok t, rest)
    → (p : SendParams S) × (subcalls : Calls S) × (res : ReturnResult S) × (ev ≡ call p)
      × AllComplete subcalls
      × Completes res
      × (iter ≡ events subcalls ++ (return res ∷ rest))
      × (t ≡ lotus_trace (call_message p) (receipt res) "" (traces subcalls))
unfolding build_lotus_trace
build_lotus_trace_sound (call p) iter t rest h =
    let read = trace_loop-Read (suc (length iter)) (call_message p) _ nil iter t rest h in
    (p, read.subcalls, read.res, refl, read.complete, read.completes, read.consumed, read.built)
build_lotus_trace_sound (return res) iter t rest h = absurd (cc)
build_lotus_trace_sound other_event iter t rest h = absurd (cc)
