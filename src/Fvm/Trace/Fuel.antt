-- ===== src/Fvm/Trace/Fuel.antt =====
-- The fuel of `build_lotus_trace` is enough: on every event and every iterator it comes to a result.
use ffi_demo.Base.{ℕ, zero, suc, ◌≤◌, ◌<◌, ◌≡◌, refl, some, List, [], ◌∷◌, length, arith}
use ffi_demo.Base.Effect.{Result, ok, err}
use ffi_demo.Fvm.Shared.{FvmShared, ExecutionEvent, call, return, other_event}
use ffi_demo.Fvm.Trace.{
  LotusTrace, new_trace, push_subcall, Built, after_subcall, trace_loop, build_lotus_trace,
}

module _ {S : FvmShared} where
  -- A result that leaves at most `n` events.
  abbrev pub Leaves : ℕ → Built S → Type 0
  Leaves n b =
      (r : Result (LotusTrace S) × List (ExecutionEvent S)) × (b ≡ some r) × (length r.1 ≤ n)

  -- What follows a subcall comes to a result if the loop does.
  after_subcall-Leaves :
      (loop : LotusTrace S → List (ExecutionEvent S) → Built S) (t : LotusTrace S) (b : Built S)
      (n : ℕ)
      → Leaves n b
      → ((u : LotusTrace S) (iter : List (ExecutionEvent S))
          → length iter ≤ n
          → Leaves (length iter) (loop u iter))
      → Leaves n (after_subcall loop t b)
  unfolding after_subcall
  after_subcall-Leaves loop t b n ((err e, iter), h, l) go =
      ((err e, iter), rw (h, after_subcall), l)
  after_subcall-Leaves loop t b n ((ok sub, iter), h, l) go =
      let (r, h', l') = go (push_subcall t sub) iter l in (r, rw (h, after_subcall) h', omega arith)

  trace_loop-Leaves :
      (f : ℕ) (t : LotusTrace S) (iter : List (ExecutionEvent S))
      → length iter < f
      → Leaves (length iter) (trace_loop f t iter)
  unfolding trace_loop
  trace_loop-Leaves zero t iter h = absurd (omega arith)
  trace_loop-Leaves (suc f) t [] h = (_, refl, omega arith)
  trace_loop-Leaves (suc f) t (return res ∷ iter) h = (_, refl, omega arith)
  trace_loop-Leaves (suc f) t (call p ∷ iter) h =
      let (r, e, l) =
        after_subcall-Leaves (trace_loop f) t _ (length iter)
          (trace_loop-Leaves f (new_trace p) iter (omega arith))
          (λ u rest le. trace_loop-Leaves f u rest (omega arith)) in
      (r, e, omega arith)
  trace_loop-Leaves (suc f) t (other_event ∷ iter) h = (_, refl, omega arith)

  -- `build_lotus_trace` always returns, with a trace or an error.
  pub build_lotus_trace_total :
      (ev : ExecutionEvent S) (iter : List (ExecutionEvent S))
      → Leaves (length iter) (build_lotus_trace ev iter)
  unfolding build_lotus_trace
  build_lotus_trace_total (call p) iter =
      trace_loop-Leaves (suc (length iter)) (new_trace p) iter (omega arith)
  build_lotus_trace_total (return res) iter = (_, refl, omega arith)
  build_lotus_trace_total other_event iter = (_, refl, omega arith)
