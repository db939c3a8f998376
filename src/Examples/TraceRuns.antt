-- ===== src/Examples/TraceRuns.antt =====
-- The trace of one call with one subcall that fails.
use ffi_demo.Base.{refl, some, List, [], ◌∷◌, ◌++◌, ◌≡◌}
use ffi_demo.Base.Effect.{ok}
use ffi_demo.Fvm.Shared.{
  SendParams, ReturnResult, ok_return, ok_failure, ExecutionEvent, call, return,
}
use ffi_demo.Fvm.Trace.{lotus_trace, call_message, build_lotus_trace}
use ffi_demo.Fvm.Trace.Calls.{Calls, no_more, made, events, Completes, AllComplete, receipt, traces}
use ffi_demo.Fvm.Trace.Fuel.{Leaves, build_lotus_trace_total}
use ffi_demo.Fvm.Trace.Roundtrip.{build_lotus_trace-events}
use ffi_demo.Fvm.Trace.Sound.{build_lotus_trace_sound}
use ffi_demo.Examples.Concrete.{shared}

abbrev outer : SendParams shared
outer = record { from = 1; to = 2; value = 3; method = 4; params = 5 ∷ [] }

abbrev inner : SendParams shared
inner = record { from = 2; to = 6; value = 0; method = 0; params = [] }

abbrev subcalls : Calls shared
subcalls = made inner no_more (ok_failure 9) no_more

abbrev result : ReturnResult shared
result = ok_return (8 ∷ [])

abbrev after : List (ExecutionEvent shared)
after = return (ok_return []) ∷ []

abbrev flat : List (ExecutionEvent shared)
flat = call inner ∷ return (ok_failure 9) ∷ return (ok_return (8 ∷ [])) ∷ return (ok_return []) ∷ []

build_lotus_trace-events_example :
    build_lotus_trace (call outer) (events subcalls ++ (return result ∷ after))
    ≡ some (ok (lotus_trace (call_message outer) (receipt result) "" (traces subcalls)), after)
build_lotus_trace-events_example =
    build_lotus_trace-events outer subcalls result after (tt, refl, tt) tt

build_lotus_trace_total_example : Leaves 4 (build_lotus_trace (call outer) flat)
build_lotus_trace_total_example = build_lotus_trace_total (call outer) flat

flat_run :
    build_lotus_trace (call outer) flat
    ≡ some (ok (lotus_trace (call_message outer) (receipt result) "" (traces subcalls)), after)
unfolding build_lotus_trace traces
flat_run = refl

build_lotus_trace_sound_example :
    (p : SendParams shared) × (l : Calls shared) × (res : ReturnResult shared) × (call outer
      ≡ call p)
    × AllComplete l
    × Completes res
    × (flat ≡ events l ++ (return res ∷ after))
    × (lotus_trace (call_message outer) (receipt result) "" (traces subcalls)
        ≡ lotus_trace (call_message p) (receipt res) "" (traces l))
build_lotus_trace_sound_example =
    build_lotus_trace_sound (call outer) flat
      (lotus_trace (call_message outer) (receipt result) "" (traces subcalls)) after flat_run
