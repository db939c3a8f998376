-- ===== src/Examples/MachineRuns.antt =====
-- The machine of a small FVM, which panics on a message of length 0.
use ffi_demo.Base.{
  ℕ, Bool, Bool-cases, inl, inr, ◌==◌, arith, refl, true, false, some, [], ◌∷◌, ◌≡◌,
}
use ffi_demo.Base.Effect.{ok, returns}
use ffi_demo.Fvm.Machine.{execute_response_default}
use ffi_demo.Fvm.Machine.Execute.{fvm_machine_execute_message}
use ffi_demo.Fvm.Machine.Execute.Outcome.{AmountsAreU128, GasIsI64, Ends, execute_message-Outcome}
use ffi_demo.Fvm.Machine.Execute.Poison.{execute, flush, run_calls, AllFailed, run_calls-poisoned}
use ffi_demo.Examples.Concrete.{shared, std, run_message, applied, api, machine_world}

shared-AmountsAreU128 : AmountsAreU128 shared
shared-AmountsAreU128 a n h = ground arith

applied-GasIsI64 : (x n : ℕ) (e : ℕ) → GasIsI64 api (run_message n x e).0
applied-GasIsI64 x n e = elim (Bool-cases (n == 0)) [
  | inl zero_length ↦ rw zero_length tt
  | inr other ↦ rw other (omega arith)
]

-- The executor ends with a result on a message of length 5.
execute_message-Outcome_example :
    let done = fvm_machine_execute_message std api [] 5 0 (machine_world false) in
    (poisoned : Bool) × Ends api (returns (ok applied)) done.0 poisoned
    × (done.1.ext.go ≡ 1)
    × (done.1.ext.machine.machine ≡ some (record { poisoned = poisoned; inner = 5 }))
execute_message-Outcome_example =
    execute_message-Outcome std api [] 5 0 (machine_world false) shared-AmountsAreU128
      (λ m x. applied-GasIsI64 x 5 0)

run_calls-poisoned_example :
    AllFailed std api (run_calls std api (execute [] 5 0 ∷ flush ∷ []) (machine_world true)).0
    × ((run_calls std api (execute [] 5 0 ∷ flush ∷ []) (machine_world true)).1.ext
        ≡ (machine_world true).ext)
run_calls-poisoned_example =
    run_calls-poisoned std api (execute [] 5 0 ∷ flush ∷ []) (machine_world true) 4 refl
