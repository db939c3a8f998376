-- ===== src/Fvm/Machine/Threads.antt =====
-- Threads of the Go side that call one machine, each once, in any interleaving. Under the lock a call
-- works on the machine that it found and writes it back at the end, so that a second call under the
-- lock would lose what the first has done. The logger and the lines logged are, at each call, whatever the
-- other threads have made of them. The Go side is used by these calls only, and the executor's calls end.
pub mod Linear
pub mod Live
use native.Mathlib.Decide.{ℕ_discrete}
use mathlib.Core.Logic.{ite}
use ffi_demo.Base.{ℕ, suc, ◌<◌, ◌≡◌, ◌≢◌, Bool, true, false, Option, none, some, List, [], ◌∷◌}
use ffi_demo.Base.Effect.{Result, ok, err}
use ffi_demo.Util.World.{World}
use ffi_demo.Fvm.Cgo.{Std}
use ffi_demo.Fvm.Shared.{FvmShared, Message}
use ffi_demo.Fvm.Blockstore.{CidApi}
use ffi_demo.Fvm.Engine.{FvmApi}
use ffi_demo.Fvm.Machine.{Host}
use ffi_demo.Fvm.Machine.Execute.Poison.{Answer, Call, execute, flush, run_call}

-- Where a thread is: before its call, in its call but before the lock, under the lock with the machine
-- that it found, or back with its answer.
pub data Phase (H : Type 0) : Type 0 where
  idle called : Phase H
  running : H → Phase H
  replied : Answer → Phase H

-- `holder` is the thread with the guard of the mutex.
pub record System (H : Type 0) : Type 0 where
  pub holder : Option ℕ
  pub host : H
  pub phases : ℕ → Phase H

unfoldable pub update {ℓ} : {A : Type ℓ} → (ℕ → A) → ℕ → A → ℕ → A
update f i a j = ite (ℕ_discrete i j) a (f j)

module _ (F : Std) {S : FvmShared} {C : CidApi} {E : Type 0} (api : FvmApi S C E) where
  -- The message is not one: the call ends before the lock.
  rejected_message : Result (Message S) → Bool
  rejected_message (ok m) = false
  rejected_message (err e) = true

  unfoldable pub rejected : Call → Bool
  unfolding rejected_message
  rejected (execute message chain_len kind) = rejected_message (api.message_from_slice message)
  rejected flush = false

  module _ (call : ℕ → Call) (n : ℕ) where
    pub data Step (s : System (Host E api.Executor)) : System (Host E api.Executor) → Type 0 where
      calls :
          (i : ℕ)
          → i < n
          → s.phases i ≡ idle
          → Step s (record s { phases = update s.phases i called })
      rejects :
          (i : ℕ) (w : World (Host E api.Executor))
          → i < n
          → s.phases i ≡ called
          → rejected (call i) ≡ true
          → w.ext ≡ s.host
          → Step s (record s { phases = update s.phases i (replied (run_call F api (call i) w).0) })
      locks :
          (i : ℕ)
          → i < n
          → s.phases i ≡ called
          → rejected (call i) ≡ false
          → s.holder ≡ none
          → Step s (record s { holder = some i; phases = update s.phases i (running s.host) })
      unlocks :
          (i : ℕ) (h : Host E api.Executor) (w : World (Host E api.Executor))
          → i < n
          → s.phases i ≡ running h
          → w.ext ≡ h
          → Step s (record {
            holder = none;
            host = (run_call F api (call i) w).1.ext;
            phases = update s.phases i (replied (run_call F api (call i) w).0);
          })

    pub data Steps (s : System (Host E api.Executor))
        : ℕ → System (Host E api.Executor) → Type 0 where
      stay : Steps s 0 s
      more :
          {k : ℕ} {t u : System (Host E api.Executor)} → Steps s k t → Step t u → Steps s (suc k) u

  -- Every thread before its call, and the lock free.
  abbrev pub at_rest : Host E api.Executor → System (Host E api.Executor)
  at_rest h = record { holder = none; host = h; phases = λ i. idle }
