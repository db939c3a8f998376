-- ===== src/Ffi/Seal.antt =====
-- proofs.go: `VerifySeal`, over cgo/proofs.go and the exported function of the Rust library.
pub mod Laws
use ffi_demo.Base.{ℕ, String, Bool, List, []}
use ffi_demo.Base.Effect.{
  Result, ok, err, Unwind, returns, panics, Exec, lift, continue, ◌>>=◌, ◌>>◌,
}
use ffi_demo.Util.World.{World}
use ffi_demo.Util.Response.{Response}
use ffi_demo.Proofs.Seal.{SealApi}
use ffi_demo.Proofs.Types.{Bytes32, RegisteredSealProof}
use ffi_demo.Proofs.Unseal as Rust
use ffi_demo.Ffi.Machine.{check_err}
use ffi_demo.Ffi.Slices.{as_byte_array32}
use ffi_demo.Ffi.Abi.{AbiSealProof, to_fil_registered_seal_proof}
use ffi_demo.Ffi.Replicas.{GoLibs, go_end, as_commitment, to_32_byte_comm_r, to_prover_id}

-- `commcid.CIDToDataCommitmentV1`, beside the other libraries
pub record SealLibs : Type 0 where
  pub libs : GoLibs
  pub data_commitment : List ℕ → Result (List ℕ)

-- `proof.SealVerifyInfo`, with the two fields of its sector's id
pub record SealVerifyInfo : Type 0 where
  pub seal_proof : AbiSealProof
  pub miner : ℕ
  pub number : ℕ
  pub randomness : List ℕ
  pub interactive_randomness : List ℕ
  pub proof : List ℕ
  pub sealed_cid : List ℕ
  pub unsealed_cid : List ℕ

unfoldable pub to_32_byte_comm_d : SealLibs → List ℕ → Unwind (Result Bytes32)
unfolding as_commitment
to_32_byte_comm_d L unsealed_cid =
    as_commitment "failed to transform sealed CID to CommD: " (L.data_commitment unsealed_cid)

-- A step of Go code that changes nothing.
abbrev pub pure_step : {E A : Type 0} → Unwind (Result A) → Exec (World E) A
pure_step u w = (u, w)

-- A call of an exported function, and `CheckErr`.
unfoldable pub call_rust : {E T : Type 0} → (World E → Response T × World E) → Exec (World E) T
unfolding check_err
call_rust call w = let (resp, w') = call w in (returns (check_err resp), w')

module _ {E : Type 0} (L : SealLibs) (api : SealApi E) where
  unfoldable pub verify_seal : SealVerifyInfo → Exec (World E) Bool
  unfolding to_32_byte_comm_r to_32_byte_comm_d to_prover_id go_end as_byte_array32 call_rust
  verify_seal info = do
    sp ← lift (to_fil_registered_seal_proof L.libs.show_int info.seal_proof)
    comm_r ← pure_step (to_32_byte_comm_r L.libs info.sealed_cid)
    comm_d ← pure_step (to_32_byte_comm_d L info.unsealed_cid)
    prover_id ← pure_step (to_prover_id L.libs info.miner)
    randomness ← pure_step (go_end (as_byte_array32 info.randomness))
    interactive_randomness ← pure_step (go_end (as_byte_array32 info.interactive_randomness))
    call_rust (
        Rust.verify_seal api sp comm_r comm_d prover_id randomness interactive_randomness
          info.number info.proof)
