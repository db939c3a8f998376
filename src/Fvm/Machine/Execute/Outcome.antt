-- ===== src/Fvm/Machine/Execute/Outcome.antt =====
-- Every way that `fvm_machine_execute_message` can go (rust/src/fvm/machine.rs): what the response holds, and
-- what becomes of the lock, the executor and the Go side.
use mathlib.Core.Path.{subst}
use ffi_demo.Base.{
  ℕ, zero, suc, String, ◌^◌, ◌<◌, ◌≡◌, refl, Bool, true, false, Option, none, some, List, arith,
}
use ffi_demo.Base.Bits.{join_u64, join_u64-halves}
use ffi_demo.Base.Int.{as_i64, InI64, as_i64-as_u64}
use ffi_demo.Base.Effect.{Error, display, Result, ok, err, Unwind, returns, panics}
use ffi_demo.Util.World.{World}
use ffi_demo.Util.Log.{init_log}
use ffi_demo.Util.Response.{Response, no_error, unclassified_error}
use ffi_demo.Util.CatchPanic.Laws.{
  panic_reason, panic_message-panic_reason, Reports, started, catch_panic_response-Reports,
}
use ffi_demo.Fvm.Cgo.{Std}
use ffi_demo.Fvm.Shared.{FvmShared, Message}
use ffi_demo.Fvm.Blockstore.{CidApi}
use ffi_demo.Fvm.Engine.{ApplyKind, explicit, implicit, ApplyRet, FvmApi}
use ffi_demo.Fvm.Machine.{
  FvmMachineExecuteResponse, execute_response_default, Mutex, Host, poisons, with_executor,
}
use ffi_demo.Fvm.Machine.Execute.{
  apply_kind_of, return_bytes, trace_bytes, unwrap_u128, execute_response, apply_response,
  after_execute, execute_body, fvm_machine_execute_message,
}
use ffi_demo.Fvm.Machine.Execute.Poison.{execute-lock}

-- Amounts that convert to a `u128` are below 2^128.
abbrev pub AmountsAreU128 : FvmShared → Type 0
AmountsAreU128 S = (a : S.TokenAmount) (n : ℕ) → S.amount_try_into a ≡ some n → n < 2 ^ 128

abbrev pub kind_of : ℕ → ApplyKind
kind_of zero = explicit
kind_of (suc n) = implicit

-- An error with this text and the default value.
abbrev pub Fails : String → Response FvmMachineExecuteResponse → Type 0
Fails text r =
    (r.status_code ≡ unclassified_error)
    × (r.error_msg ≡ text)
    × (r.value ≡ execute_response_default.default)

module _ {S : FvmShared} {C : CidApi} {E : Type 0} (api : FvmApi S C E) where
  -- The gas of a result is an `i64`.
  abbrev pub GasIsI64 : Unwind (Result (ApplyRet S)) → Type 0
  GasIsI64 (returns (ok ret)) = InI64 ret.msg_receipt.gas_used
  GasIsI64 (returns (err e)) = Unit
  GasIsI64 (panics p) = Unit

  -- The executor's result as the caller reads it: words joined, and gas as a signed number.
  abbrev pub Holds : ApplyRet S → ℕ → ℕ → FvmMachineExecuteResponse → Type 0
  Holds ret penalty tip v =
      (v.exit_code ≡ S.exit_value ret.msg_receipt.exit_code)
      × (v.return_val ≡ return_bytes ret.msg_receipt.return_data)
      × (as_i64 v.gas_used ≡ ret.msg_receipt.gas_used)
      × (join_u64 v.penalty_hi v.penalty_lo ≡ penalty)
      × (join_u64 v.miner_tip_hi v.miner_tip_lo ≡ tip)
      × (v.exec_trace ≡ trace_bytes api ret.exec_trace)
      × (v.failure_info ≡ ret.failure_info)

  -- By the amounts as `u128`, if they are: the response, and whether the lock is poisoned.
  abbrev pub Amounts :
      Option ℕ → Option ℕ → ApplyRet S → Response FvmMachineExecuteResponse → Bool → Type 0
  Amounts (some penalty) (some tip) ret r poisoned =
      (r.status_code ≡ no_error)
      × (r.error_msg ≡ "")
      × Holds ret penalty tip r.value
      × (poisoned ≡ false)
  Amounts (some penalty) none ret r poisoned =
      Fails "Rust panic: no unwind information" r × (poisoned ≡ true)
  Amounts none tip ret r poisoned = Fails "Rust panic: no unwind information" r × (poisoned ≡ true)

  -- By how the executor ends.
  abbrev pub Ends :
      Unwind (Result (ApplyRet S)) → Response FvmMachineExecuteResponse → Bool → Type 0
  Ends (returns (ok ret)) r poisoned =
      Amounts (S.amount_try_into ret.penalty) (S.amount_try_into ret.miner_tip) ret r poisoned
  Ends (returns (err e)) r poisoned = Fails (display e) r × (poisoned ≡ false)
  Ends (panics p) r poisoned = Fails (panic_reason p) r × (poisoned ≡ true)

  execute_response-Holds :
      (ret : ApplyRet S) (p t : ℕ)
      → InI64 ret.msg_receipt.gas_used
      → p < 2 ^ 128
      → t < 2 ^ 128
      → Holds ret p t (execute_response api ret p t)
  unfolding execute_response
  execute_response-Holds ret p t g hp ht = (
    refl,
    refl,
    as_i64-as_u64 ret.msg_receipt.gas_used g,
    join_u64-halves p hp,
    join_u64-halves t ht,
    refl,
    refl,
  )

  after_execute-Amounts :
      AmountsAreU128 S
      → (ret : ApplyRet S) (r : Response FvmMachineExecuteResponse) (a b : Option ℕ)
      → InI64 ret.msg_receipt.gas_used
      → S.amount_try_into ret.penalty ≡ a
      → S.amount_try_into ret.miner_tip ≡ b
      → Reports execute_response_default.default (after_execute api (returns (ok ret))) r
      → Amounts a b ret r (poisons (after_execute api (returns (ok ret))))
  unfolding after_execute apply_response unwrap_u128
  after_execute-Amounts u128 ret r (some p) (some t) g hp ht h =
      ground (arith, execute_response-Holds ret p t g (u128 _ p hp) (u128 _ t ht))
  after_execute-Amounts u128 ret r (some p) none g hp ht h = ground arith
  after_execute-Amounts u128 ret r none b g hp ht h = ground arith

  after_execute-Ends :
      AmountsAreU128 S
      → (u : Unwind (Result (ApplyRet S))) (r : Response FvmMachineExecuteResponse) → GasIsI64 u
      → Reports execute_response_default.default (after_execute api u) r
      → Ends u r (poisons (after_execute api u))
  unfolding after_execute
  after_execute-Ends u128 (returns (ok ret)) r g h =
      after_execute-Amounts u128 ret r _ _ g refl refl h
  after_execute-Ends u128 (returns (err e)) r g h = (h, refl)
  after_execute-Ends u128 (panics p) r g h = (h, refl)

module _ (F : Std) {S : FvmShared} {C : CidApi} {E : Type 0} (api : FvmApi S C E) (chain_len : ℕ)
    (kind : ApplyKind) (host : Host E api.Executor) (r : Response FvmMachineExecuteResponse)
    (host' : Host E api.Executor) where
  -- By whether the lock is poisoned: the response and the host that are left.
  abbrev pub Locked : Message S → api.Executor → Bool → Type 0
  Locked m x true = Fails "Rust panic: no unwind information" r × (host' ≡ host)
  Locked m x false =
      let run = api.execute_message m kind chain_len x host.go in
      (poisoned : Bool) × Ends api run.0 r poisoned
      × (host'.go ≡ run.2)
      × (host'.machine.machine ≡ some (record { poisoned = poisoned; inner = run.1 }))

  -- By the message as it parses, and by the machine.
  abbrev pub Outcome : Result (Message S) → Option (Mutex api.Executor) → Type 0
  Outcome (err e) machine = Fails (display e) r × (host' ≡ host)
  Outcome (ok m) none =
      Fails (panic_reason (F.expect_payload "missing executor")) r × (host' ≡ host)
  Outcome (ok m) (some lock) = Locked m lock.inner lock.poisoned

module _ (F : Std) {S : FvmShared} {C : CidApi} {E : Type 0} (api : FvmApi S C E) (message : List ℕ)
    (chain_len n : ℕ) (w : World (Host E api.Executor)) where
  abbrev out : Response FvmMachineExecuteResponse × World (Host E api.Executor)
  out = fvm_machine_execute_message F api message chain_len n w

  reported :
      Reports execute_response_default.default
        (execute_body F api message chain_len n (started "fvm_machine_execute_message" w)).0
        out.0
  unfolding fvm_machine_execute_message
  reported =
      (catch_panic_response-Reports "fvm_machine_execute_message"
        (execute_body F api message chain_len n) w).0

  apply_kind_of-kind_of : (k : ℕ) → apply_kind_of k ≡ kind_of k
  unfolding apply_kind_of
  apply_kind_of-kind_of zero = refl
  apply_kind_of-kind_of (suc k) = ground arith

  rejected-Outcome :
      (e : Error)
      → api.message_from_slice message ≡ err e
      → Fails (display e) out.0 × (out.1.ext ≡ w.ext)
  unfolding fvm_machine_execute_message init_log
  rejected-Outcome e h = ground (arith, reported)

  missing-Outcome :
      (m : Message S)
      → api.message_from_slice message ≡ ok m
      → w.ext.machine.machine ≡ none
      → Fails (panic_reason (F.expect_payload "missing executor")) out.0 × (out.1.ext ≡ w.ext)
  unfolding fvm_machine_execute_message with_executor init_log
  missing-Outcome m parsed h =
      ground (arith, reported, panic_message-panic_reason (F.expect_payload "missing executor"))

  Locked-Outcome :
      (m : Message S) (x : api.Executor) (b : Bool)
      → AmountsAreU128 S
      → GasIsI64 api (api.execute_message m (kind_of n) chain_len x w.ext.go).0
      → api.message_from_slice message ≡ ok m
      → w.ext.machine.machine ≡ some (record { poisoned = b; inner = x })
      → Locked F api chain_len (kind_of n) w.ext out.0 out.1.ext m x b
  unfolding fvm_machine_execute_message with_executor init_log
  Locked-Outcome m x true u128 gas parsed h = ground (arith, reported)
  Locked-Outcome m x false u128 gas parsed h =
      let (reports, go, machine) = execute-lock F api message chain_len n w m x parsed h in
      let ran = λ (k : ApplyKind). (api.execute_message m k chain_len x w.ext.go).0 in
      subst (λ k. GasIsI64 api (ran k) → Locked F api chain_len k w.ext out.0 out.1.ext m x false)
        (apply_kind_of-kind_of n)
        (λ g. (
          poisons (after_execute api (ran (apply_kind_of n))),
          after_execute-Ends api u128 (ran (apply_kind_of n)) out.0 g reports,
          go,
          machine,
        ))
        gas

  Locked-as :
      (m : Message S) (lock : Mutex api.Executor)
      → AmountsAreU128 S
      → GasIsI64 api (api.execute_message m (kind_of n) chain_len lock.inner w.ext.go).0
      → api.message_from_slice message ≡ ok m
      → w.ext.machine.machine ≡ some lock
      → Locked F api chain_len (kind_of n) w.ext out.0 out.1.ext m lock.inner lock.poisoned
  Locked-as m lock = Locked-Outcome m lock.inner lock.poisoned

  Outcome-cases :
      (parsed : Result (Message S)) (machine : Option (Mutex api.Executor))
      → AmountsAreU128 S
      → ((m : Message S) (x : api.Executor)
          → GasIsI64 api (api.execute_message m (kind_of n) chain_len x w.ext.go).0)
      → api.message_from_slice message ≡ parsed
      → w.ext.machine.machine ≡ machine
      → Outcome F api chain_len (kind_of n) w.ext out.0 out.1.ext parsed machine
  Outcome-cases (err e) machine u128 gas p h = rejected-Outcome e p
  Outcome-cases (ok m) none u128 gas p h = missing-Outcome m p h
  Outcome-cases (ok m) (some lock) u128 gas p h = Locked-as m lock u128 (gas m lock.inner) p h

  -- Every way that `fvm_machine_execute_message` can go, if gas is an `i64` and amounts that convert are
  -- below 2^128. A message that does not parse, a missing machine and a poisoned lock are errors that
  -- leave the machine and the Go side as they are. Else the executor runs once, and both are left as
  -- it leaves them. Its result is reported with its receipt and its trace, and with the gas and both
  -- amounts, which the words in the response stand for; its error is reported with the text. Then the
  -- lock is free again. An amount that is no `u128` and a panic of the executor are errors, and the
  -- lock is poisoned.
  pub execute_message-Outcome :
      AmountsAreU128 S
      → ((m : Message S) (x : api.Executor)
          → GasIsI64 api (api.execute_message m (kind_of n) chain_len x w.ext.go).0)
      → let done = fvm_machine_execute_message F api message chain_len n w in
        Outcome F api chain_len
          (kind_of n)
          w.ext
          done.0
          done.1.ext
          (api.message_from_slice message)
          w.ext.machine.machine
  execute_message-Outcome u128 gas = Outcome-cases _ _ u128 gas refl refl
