-- ===== src/Ffi/Machine/Apply.antt =====
-- `ApplyMessage`, from the machine's executor to the caller in Go.
use ffi_demo.Base.{ℕ, ◌^◌, ◌<◌, ◌≡◌, refl, ap, ◌∙◌, false, some, List, arith}
use ffi_demo.Base.Int.{pos, InI64, as_i64-as_u64}
use ffi_demo.Base.Bits.{high_u64, low_u64}
use ffi_demo.Base.Effect.{message, display, Result, ok, err, Unwind, returns, panics}
use ffi_demo.Util.World.{World}
use ffi_demo.Util.Response.{Response}
use ffi_demo.Util.CatchPanic.Laws.{panic_reason, Reports}
use ffi_demo.Fvm.Cgo.{Std}
use ffi_demo.Fvm.Shared.{FvmShared, Message}
use ffi_demo.Fvm.Blockstore.{CidApi}
use ffi_demo.Fvm.Engine.{explicit, ApplyRet, FvmApi}
use ffi_demo.Fvm.Machine.{execute_response_default, Host, poisons}
use ffi_demo.Fvm.Machine.Execute.{
  apply_kind_of, return_bytes, trace_bytes, execute_response, apply_response, after_execute,
}
use ffi_demo.Fvm.Machine.Execute.Poison.{execute-lock}
use ffi_demo.Ffi.BigInt.{reform_big_int, reform_big_int_lem}
use ffi_demo.Ffi.Machine.{
  check_err, GoApplyRet, text_of, go_apply_ret, map_result, apply_message, apply_explicit,
}

-- What Go code gets of how a callback of Rust ended.
abbrev pub reported {ℓ} : {T : Type ℓ} → Unwind (Result T) → Result T
reported (returns (ok v)) = ok v
reported (returns (err e)) = err (message (display e))
reported (panics p) = err (message (panic_reason p))

pub check_err-Reports :
    {T : Type 0} (fallback : T) (u : Unwind (Result T)) (r : Response T)
    → Reports fallback u r
    → check_err r ≡ reported u
unfolding check_err
check_err-Reports fallback (returns (ok v)) r h = ground arith
check_err-Reports fallback (returns (err e)) r h = ground arith
check_err-Reports fallback (panics p) r h = ground arith

-- The two words of an amount are reformed to it.
reform-halves : (p : ℕ) → p < 2 ^ 128 → reform_big_int (high_u64 p) (low_u64 p) ≡ pos p
reform-halves p l = reform_big_int_lem (high_u64 p) (low_u64 p) ∙ ap pos (omega arith)

-- What the caller gets for the executor's result, with the amounts as the executor has them.
abbrev pub GetsRet :
    {S : FvmShared} {C : CidApi} {E : Type 0} (api : FvmApi S C E)
    → ApplyRet S
    → ℕ
    → ℕ
    → GoApplyRet
    → Type 0
GetsRet {S = S} api ret p t r =
    (r.return ≡ return_bytes ret.msg_receipt.return_data)
    × (r.exit_code ≡ S.exit_value ret.msg_receipt.exit_code)
    × (r.gas_used ≡ ret.msg_receipt.gas_used)
    × (r.miner_penalty ≡ pos p)
    × (r.miner_tip ≡ pos t)
    × (r.exec_trace_bytes ≡ trace_bytes api ret.exec_trace)
    × (r.failure_info ≡ text_of ret.failure_info)

module _ (F : Std) {S : FvmShared} {C : CidApi} {E : Type 0} (api : FvmApi S C E) where
  go_apply_ret-GetsRet :
      (ret : ApplyRet S) (p t : ℕ)
      → InI64 ret.msg_receipt.gas_used
      → p < 2 ^ 128
      → t < 2 ^ 128
      → GetsRet api ret p t (go_apply_ret (execute_response api ret p t))
  unfolding go_apply_ret execute_response
  go_apply_ret-GetsRet ret p t g hp ht = (
    refl,
    refl,
    as_i64-as_u64 ret.msg_receipt.gas_used g,
    reform-halves p hp,
    reform-halves t ht,
    refl,
    refl,
  )

  -- What `ApplyMessage` returns, and what it leaves, when the lock is free.
  apply_message-lock :
      (bytes : List ℕ) (chain_len : ℕ) (w : World (Host E api.Executor)) (m : Message S)
      (x : api.Executor)
      → api.message_from_slice bytes ≡ ok m
      → w.ext.machine.machine ≡ some (record { poisoned = false; inner = x })
      → let run = api.execute_message m explicit chain_len x w.ext.go in
        let out = apply_message F api bytes chain_len w in
        (out.0 ≡ map_result go_apply_ret (reported (after_execute api run.0)))
        × (out.1.ext.go ≡ run.2)
        × (out.1.ext.machine.machine
            ≡ some (record { poisoned = poisons (after_execute api run.0); inner = run.1 }))
  unfolding apply_message apply_kind_of
  apply_message-lock bytes chain_len w m x parsed free =
      let (reports, go, machine) =
        execute-lock F api bytes chain_len apply_explicit w m x parsed free in
      (ap (map_result go_apply_ret) (check_err-Reports _ _ _ reports), go, machine)

  -- A message that parses, on a machine whose lock is free, for which the executor returns a result with
  -- `i64` gas and a penalty and a tip below 2^128: `ApplyMessage` returns the receipt, the gas, both
  -- amounts and the trace of that result, and the lock is free again.
  pub apply_message-GetsRet :
      (bytes : List ℕ) (chain_len : ℕ) (w : World (Host E api.Executor)) (m : Message S)
      (x : api.Executor) (ret : ApplyRet S) (p t : ℕ)
      → api.message_from_slice bytes ≡ ok m
      → w.ext.machine.machine ≡ some (record { poisoned = false; inner = x })
      → (api.execute_message m explicit chain_len x w.ext.go).0 ≡ returns (ok ret)
      → S.amount_try_into ret.penalty ≡ some p
      → S.amount_try_into ret.miner_tip ≡ some t
      → p < 2 ^ 128
      → t < 2 ^ 128
      → InI64 ret.msg_receipt.gas_used
      → let run = api.execute_message m explicit chain_len x w.ext.go in
        let out = apply_message F api bytes chain_len w in
        ((r : GoApplyRet) × (out.0 ≡ ok r) × GetsRet api ret p t r)
        × (out.1.ext.go ≡ run.2)
        × (out.1.ext.machine.machine ≡ some (record { poisoned = false; inner = run.1 }))
  unfolding after_execute apply_response map_result
  apply_message-GetsRet bytes chain_len w m x ret p t parsed free ran hp ht lp lt g =
      let (result, go, machine) = apply_message-lock bytes chain_len w m x parsed free in
      let made : after_execute api (returns (ok ret))
          ≡ returns (ok (execute_response api ret p t)) =
        rw (hp, apply_response, ht) refl in
      let done = ap (after_execute api) ran ∙ made in
      (
        (
          go_apply_ret (execute_response api ret p t),
          result ∙ ap (λ u. map_result go_apply_ret (reported u)) done,
          go_apply_ret-GetsRet ret p t g lp lt,
        ),
        go,
        machine
            ∙ ap
                (λ u. some (record {
                  poisoned = poisons u;
                  inner = (api.execute_message m explicit chain_len x w.ext.go).1;
                }))
                done,
      )
