-- ===== src/Fvm/Machine/Execute/Poison.antt =====
-- The lock around the executor: what a call leaves in it, and what a poisoned lock does to later calls.
use ffi_demo.Base.{ℕ, ◌≡◌, refl, true, false, some, List, [], ◌∷◌, arith}
use ffi_demo.Base.Effect.{ok}
use ffi_demo.Util.World.{World}
use ffi_demo.Util.Response.{FcpResponseStatus, Response, unclassified_error, list_default}
use ffi_demo.Util.CatchPanic.Laws.{Reports, catch_panic_response-Reports}
use ffi_demo.Fvm.Cgo.{Std}
use ffi_demo.Fvm.Shared.{FvmShared, Message}
use ffi_demo.Fvm.Blockstore.{CidApi}
use ffi_demo.Fvm.Engine.{FvmApi}
use ffi_demo.Fvm.Machine.{
  FvmMachineExecuteResponse, execute_response_default, Host, poisons, with_executor,
}
use ffi_demo.Fvm.Machine.Execute.{
  apply_kind_of, after_execute, execute_body, fvm_machine_execute_message, fvm_machine_flush,
}

-- A call of the Go side on the machine.
pub data Call : Type 0 where
  execute : List ℕ → ℕ → ℕ → Call
  flush : Call

-- The response to a call, whole.
pub data Answer : Type 0 where
  executed : Response FvmMachineExecuteResponse → Answer
  flushed : Response (List ℕ) → Answer

abbrev pub status_of : Answer → FcpResponseStatus
status_of (executed r) = r.status_code
status_of (flushed r) = r.status_code

module _ (F : Std) {S : FvmShared} {C : CidApi} {E : Type 0} (api : FvmApi S C E) where
  unfoldable pub run_call :
      Call → World (Host E api.Executor) → Answer × World (Host E api.Executor)
  run_call (execute message chain_len kind) w =
      let (r, w') = fvm_machine_execute_message F api message chain_len kind w in (executed r, w')
  run_call flush w = let (r, w') = fvm_machine_flush F api w in (flushed r, w')

  pub run_calls :
      List Call → World (Host E api.Executor) → List Answer × World (Host E api.Executor)
  run_calls [] w = ([], w)
  run_calls (c ∷ calls) w =
      let (answer, w') = run_call c w in
      let (answers, w'') = run_calls calls w' in (answer ∷ answers, w'')

  abbrev pub AllFailed : List Answer → Type 0
  AllFailed [] = Unit
  AllFailed (a ∷ answers) = (status_of a ≡ unclassified_error) × AllFailed answers

  -- A message that parses, on a machine whose lock is free: the response reports what the executor
  -- and the conversion of its result do, the executor and the Go side are left as it leaves them,
  -- and the lock is poisoned exactly if this unwinds.
  pub execute-lock :
      (message : List ℕ) (chain_len kind : ℕ) (w : World (Host E api.Executor)) (m : Message S)
      (x : api.Executor)
      → api.message_from_slice message ≡ ok m
      → w.ext.machine.machine ≡ some (record { poisoned = false; inner = x })
      → let run = api.execute_message m (apply_kind_of kind) chain_len x w.ext.go in
        let out = fvm_machine_execute_message F api message chain_len kind w in
        Reports execute_response_default.default (after_execute api run.0) out.0
        × (out.1.ext.go ≡ run.2)
        × (out.1.ext.machine.machine
            ≡ some (record { poisoned = poisons (after_execute api run.0); inner = run.1 }))
  unfolding fvm_machine_execute_message with_executor
  execute-lock message chain_len kind w m x parsed free = ground (
    arith,
    catch_panic_response-Reports "fvm_machine_execute_message"
        (execute_body F api message chain_len kind) w,
  )

  call_poisoned :
      (c : Call) (w : World (Host E api.Executor)) (x : api.Executor)
      → w.ext.machine.machine ≡ some (record { poisoned = true; inner = x })
      → (status_of (run_call c w).0 ≡ unclassified_error) × ((run_call c w).1.ext ≡ w.ext)
  unfolding run_call fvm_machine_execute_message fvm_machine_flush with_executor
  call_poisoned (execute message chain_len kind) w x h = ground arith
  call_poisoned flush w x h = ground arith

  -- Once the lock is poisoned, every later call is answered with an error and changes neither the
  -- machine nor the Go side.
  pub run_calls-poisoned :
      (calls : List Call) (w : World (Host E api.Executor)) (x : api.Executor)
      → w.ext.machine.machine ≡ some (record { poisoned = true; inner = x })
      → AllFailed (run_calls calls w).0 × ((run_calls calls w).1.ext ≡ w.ext)
  unfolding run_calls
  run_calls-poisoned [] w x h = (tt, refl)
  run_calls-poisoned (c ∷ calls) w x h =
      ground (arith, call_poisoned c w x h, run_calls-poisoned calls (run_call c w).1 x)
