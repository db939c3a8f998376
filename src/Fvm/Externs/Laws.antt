-- ===== src/Fvm/Externs/Laws.antt =====
-- What the externs answer.
use ffi_demo.Base.{ℕ, zero, suc, length, ◌≡◌, Option, none, some, List, arith}
use ffi_demo.Base.Int.{ℤ, pos, negsuc, as_i32}
use ffi_demo.Fvm.Cgo.{Std, CgoApi}
use ffi_demo.Fvm.Blockstore.Cgo.Codes.{Ending, value, error, unwound, ending}
use ffi_demo.Fvm.Externs.{
  ConsensusFault, get_chain_randomness, get_beacon_randomness, verify_consensus_fault,
}

-- How a code ends a call of an extern that has a value to return.
abbrev pub code_ending : {A : Type 0} → A → ℤ → Ending A
code_ending v (pos zero) = value v
code_ending v (pos (suc _)) = unwound
code_ending v (negsuc zero) = unwound
code_ending v (negsuc (suc _)) = error

-- What is made of the words that the Go side wrote.
abbrev pub fault_ending :
    {Address FaultType : Type 0}
    → (ℕ → Address)
    → (ℤ → Option FaultType)
    → ℤ
    → ℕ
    → ℤ
    → ℤ
    → ℤ
    → Ending (Option (ConsensusFault Address FaultType) × ℤ)
fault_ending new_id from_i64 (pos zero) miner epoch (pos zero) gas = value (none, gas)
fault_ending new_id from_i64 (pos zero) miner epoch t gas = elim (from_i64 t) [
  | some f ↦ value (some (record { target = new_id miner; epoch = epoch; fault_type = f }), gas)
  | none ↦ error
]
fault_ending new_id from_i64 (pos (suc _)) miner epoch t gas = unwound
fault_ending new_id from_i64 (negsuc zero) miner epoch t gas = unwound
fault_ending new_id from_i64 (negsuc (suc _)) miner epoch t gas = error

module _ (F : Std) {E : Type 0} (go : CgoApi E) (handle : ℕ) where
  -- Randomness is the buffer of the Go side under code 0 and an error under a code below -1; any
  -- other code unwinds. No code changes the state that the Go side left.
  pub randomness_endings :
      (pers round : ℤ) (entropy : List ℕ) (e : E)
      → let chain = go.get_chain_randomness handle pers round entropy (as_i32 (length entropy)) e in
        let beacon =
          go.get_beacon_randomness handle pers round entropy (as_i32 (length entropy)) e in
        (ending (get_chain_randomness F go handle pers round entropy e).0
          ≡ code_ending chain.0.1 chain.0.0)
        × ((get_chain_randomness F go handle pers round entropy e).1 ≡ chain.1)
        × (ending (get_beacon_randomness F go handle pers round entropy e).0
            ≡ code_ending beacon.0.1 beacon.0.0)
        × ((get_beacon_randomness F go handle pers round entropy e).1 ≡ beacon.1)
  unfolding get_chain_randomness get_beacon_randomness
  randomness_endings pers round entropy e = ground arith

  -- A consensus fault is reported under code 0 if the fault type is not 0, with the miner, the epoch
  -- and the type that the Go side wrote, and the gas used in any case; a type that is not known is an
  -- error. The other codes end as they do for randomness, and the state is what the Go side left.
  pub verify_consensus_fault_ending :
      {Address FaultType : Type 0} (new_id : ℕ → Address) (from_i64 : ℤ → Option FaultType)
      (h1 h2 extra : List ℕ) (e : E)
      → let run =
          go.verify_consensus_fault handle h1
            (as_i32 (length h1))
            h2
            (as_i32 (length h2))
            extra
            (as_i32 (length extra))
            e in
        (ending (verify_consensus_fault F go handle new_id from_i64 h1 h2 extra e).0
          ≡ fault_ending new_id from_i64 run.0.0 run.0.1 run.0.2 run.0.3 run.0.4)
        × ((verify_consensus_fault F go handle new_id from_i64 h1 h2 extra e).1 ≡ run.1)
  unfolding verify_consensus_fault
  verify_consensus_fault_ending new_id from_i64 h1 h2 extra e = ground arith
