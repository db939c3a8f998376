-- ===== src/Go/Chain.antt =====
-- cgo/extern.go: randomness and consensus faults, and the whole interface of the bridge.
use ffi_demo.Base.{ℕ, zero, ◌-◌, Option, none, some, List, [], ◌++◌, take, replicate, length}
use ffi_demo.Base.Int.{ℤ, pos}
use ffi_demo.Fvm.Cgo.{CgoApi, io, panic, fvm_error_i32}
use ffi_demo.Go.{GoEnd, done, panicked, GoError, GoCall, GoFault, Externs, GoState}
use ffi_demo.Go.Store.{
  GoApi, go_bytes, with_externs, no_data, cgo_blockstore_get, cgo_blockstore_put,
  cgo_blockstore_has, cgo_blockstore_put_many,
}

-- `copy(out[:], rand)` into 32 zeros
unfoldable pub copy_32 : List ℕ → List ℕ
copy_32 rand = take 32 rand ++ replicate (32 - length rand) 0

unfoldable pub rand_end : GoEnd (List ℕ × Option GoError) → ℤ × List ℕ
unfolding copy_32 fvm_error_i32
rand_end (done (rand, none)) = (pos 0, copy_32 rand)
rand_end (done (rand, some _)) = (fvm_error_i32 io, [])
rand_end panicked = (fvm_error_i32 panic, [])

-- The words that are written: the miner, the epoch, the type and the gas, over zeros.
abbrev pub FaultWords : Type 0
FaultWords = ℤ × ℕ × ℤ × ℤ × ℤ

abbrev pub no_fault : ℤ → FaultWords
no_fault code = (code, 0, pos 0, pos 0, pos 0)

module _ {Address : Type 0} (api : GoApi Address) where
  -- The part under `faultRes.Type != ConsensusFaultNone`.
  unfoldable pub report_fault : Option ℕ → GoFault Address → ℤ → FaultWords
  unfolding fvm_error_i32
  report_fault none fault gas = (fvm_error_i32 io, 0, pos 0, fault.fault_type, gas)
  report_fault (some id) fault gas = (pos 0, id, fault.epoch, fault.fault_type, gas)

  unfoldable pub typed_fault : ℤ → GoFault Address → ℤ → FaultWords
  unfolding report_fault
  typed_fault (pos zero) fault gas = (pos 0, 0, pos 0, pos 0, gas)
  typed_fault t fault gas = report_fault (api.id_from_address fault.target) fault gas

  unfoldable pub fault_end : GoEnd (Option (GoFault Address) × ℤ) → FaultWords
  unfolding typed_fault fvm_error_i32
  fault_end (done (some fault, gas)) = typed_fault fault.fault_type fault gas
  fault_end (done (none, gas)) = (fvm_error_i32 panic, 0, pos 0, pos 0, gas)
  fault_end panicked = no_fault (fvm_error_i32 panic)

-- The three `C.GoBytes` before a call.
unfoldable pub three_bytes :
    {A U : Type 0}
    → A
    → GoEnd (List ℕ)
    → GoEnd (List ℕ)
    → GoEnd (List ℕ)
    → (List ℕ → List ℕ → List ℕ → U → A × U)
    → U
    → A × U
three_bytes bad (done a) (done b) (done c) f u = f a b c u
three_bytes bad _ _ _ f u = (bad, u)

module _ {Address U : Type 0} (api : GoApi Address) where
  -- What both kinds of randomness share.
  unfoldable pub randomness :
      (Externs Address U → ℤ → ℤ → List ℕ → GoCall U (List ℕ × Option GoError))
      → ℕ
      → ℤ
      → ℤ
      → List ℕ
      → ℤ
      → GoState Address U
      → (ℤ × List ℕ) × GoState Address U
  unfolding with_externs go_bytes rand_end fvm_error_i32
  randomness method handle pers round entropy entropy_len = with_externs no_data handle λ x u.
      elim (go_bytes api.negative entropy entropy_len) [
        | panicked ↦ (no_data (fvm_error_i32 panic), u)
        | done bytes ↦ let (r, u') = method x pers round bytes u in (rand_end r, u')
      ]

  unfoldable pub cgo_extern_get_chain_randomness :
      ℕ → ℤ → ℤ → List ℕ → ℤ → GoState Address U → (ℤ × List ℕ) × GoState Address U
  unfolding randomness
  cgo_extern_get_chain_randomness = randomness λ x. x.get_chain_randomness

  unfoldable pub cgo_extern_get_beacon_randomness :
      ℕ → ℤ → ℤ → List ℕ → ℤ → GoState Address U → (ℤ × List ℕ) × GoState Address U
  unfolding randomness
  cgo_extern_get_beacon_randomness = randomness λ x. x.get_beacon_randomness

  unfoldable pub cgo_extern_verify_consensus_fault :
      ℕ → List ℕ → ℤ → List ℕ → ℤ → List ℕ → ℤ → GoState Address U → FaultWords × GoState Address U
  unfolding with_externs go_bytes three_bytes fault_end fvm_error_i32
  cgo_extern_verify_consensus_fault handle h1 h1_len h2 h2_len extra extra_len =
      with_externs no_fault handle λ x.
        three_bytes (no_fault (fvm_error_i32 panic)) (go_bytes api.negative h1 h1_len)
          (go_bytes api.negative h2 h2_len) (go_bytes api.negative extra extra_len)
          λ a b c u. let (r, u') = x.verify_consensus_fault a b c u in (fault_end api r, u')

  -- The Go side, as the Rust side calls it.
  abbrev pub go_side : CgoApi (GoState Address U)
  go_side = record {
    blockstore_get = cgo_blockstore_get api;
    blockstore_put = cgo_blockstore_put api;
    blockstore_put_many = cgo_blockstore_put_many api;
    blockstore_has = cgo_blockstore_has api;
    get_chain_randomness = cgo_extern_get_chain_randomness;
    get_beacon_randomness = cgo_extern_get_beacon_randomness;
    verify_consensus_fault = cgo_extern_verify_consensus_fault;
  }
