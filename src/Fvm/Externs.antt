-- ===== src/Fvm/Externs.antt =====
-- rust/src/fvm/externs.rs: randomness and consensus faults, from the Go side.
pub mod Laws
use ffi_demo.Base.{ℕ, zero, suc, String, ◌<>◌, Option, none, some, List, length}
use ffi_demo.Base.Int.{ℤ, pos, negsuc, as_i32}
use ffi_demo.Base.Effect.{
  message, owned, Result, ok, err, Exec, pure, raise, panic, lift, ◌>>=◌, ◌>>◌,
}
use ffi_demo.Fvm.Cgo.{Std, CgoApi}

module _ (F : Std) {E A : Type 0} where
  -- The arms for a code other than 0: -1 is `FvmError::InvalidHandle`.
  unfoldable pub extern_code : String → ℕ → A → ℤ → Exec E A
  extern_code name handle value (pos zero) = pure value
  extern_code name handle value (pos (suc r)) =
      panic (owned ("invalid return value from has: " <> F.show_i32 (pos (suc r))))
  extern_code name handle value (negsuc zero) =
      panic (owned ("extern " <> F.show_u64 handle <> " not registered"))
  extern_code name handle value (negsuc (suc e)) = raise (
      message
        ("cgo extern '" <> name <> "' failed with error code " <> F.show_i32 (negsuc (suc e))))

-- `fvm_shared::consensus::ConsensusFault`; `Address::new_id` and `FromPrimitive::from_i64` are
-- parameters.
pub record ConsensusFault (Address FaultType : Type 0) : Type 0 where
  pub target : Address
  pub epoch : ℤ
  pub fault_type : FaultType

module _ (F : Std) {E : Type 0} (go : CgoApi E) (handle : ℕ) where
  -- `pers` is the domain separation tag, as an `i64`.
  unfoldable pub get_chain_randomness : ℤ → ℤ → List ℕ → Exec E (List ℕ)
  unfolding extern_code
  get_chain_randomness pers round entropy e =
      let ((code, buf), e') =
        go.get_chain_randomness handle pers round entropy (as_i32 (length entropy)) e in
      extern_code F "get_chain_randomness" handle buf code e'

  unfoldable pub get_beacon_randomness : ℤ → ℤ → List ℕ → Exec E (List ℕ)
  unfolding extern_code
  get_beacon_randomness pers round entropy e =
      let ((code, buf), e') =
        go.get_beacon_randomness handle pers round entropy (as_i32 (length entropy)) e in
      extern_code F "get_beacon_randomness" handle buf code e'

  module _ {Address FaultType : Type 0} (new_id : ℕ → Address)
      (from_i64 : ℤ → Option FaultType) where
    -- `from_i64(fault_type).context("invalid fault type")?`
    known_fault : ℤ → Result FaultType
    known_fault t = elim (from_i64 t) [ some f ↦ ok f | none ↦ err (message "invalid fault type") ]

    -- The inner `match`: a fault type of 0 is no fault.
    unfoldable pub fault_of : ℕ → ℤ → ℤ → Exec E (Option (ConsensusFault Address FaultType))
    unfolding known_fault
    fault_of miner_id epoch (pos zero) = pure none
    fault_of miner_id epoch t = do
      f ← lift (known_fault t)
      pure (some (record { target = new_id miner_id; epoch = epoch; fault_type = f }))

    unfoldable pub verify_consensus_fault :
        List ℕ → List ℕ → List ℕ → Exec E (Option (ConsensusFault Address FaultType) × ℤ)
    unfolding extern_code fault_of
    verify_consensus_fault h1 h2 extra e =
        let ((code, miner_id, epoch, fault_type, gas_used), e') =
          go.verify_consensus_fault handle h1 (as_i32 (length h1)) h2 (as_i32 (length h2)) extra
            (as_i32 (length extra)) e in
        (do
          extern_code F "verify_consensus_fault" handle tt code
          fault ← fault_of miner_id epoch fault_type
          pure (fault, gas_used))
          e'
