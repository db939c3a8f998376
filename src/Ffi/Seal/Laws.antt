-- ===== src/Ffi/Seal/Laws.antt =====
-- When `VerifySeal` accepts.
use ffi_demo.Base.{
  ℕ, ◌-◌, ◌≤◌, ◌≡◌, refl, ap, ◌∙◌, ◌↔◌, Bool, true, String, List, ◌++◌, length, arith,
}
use ffi_demo.Base.Effect.{ok, err, Unwind, Result, returns, panics}
use ffi_demo.Util.World.{World, outside}
use ffi_demo.Util.Response.{Default}
use ffi_demo.Util.CatchPanic.{catch_panic_response}
use ffi_demo.Util.CatchPanic.Laws.{catch_panic_response-outside}
use ffi_demo.Proofs.Post.{bool_default}
use ffi_demo.Proofs.Seal.{SealApi}
use ffi_demo.Proofs.Types.{RegisteredSealProof, seal_into_api}
use ffi_demo.Proofs.Unseal as Rust
use ffi_demo.Ffi.Machine.Apply.{reported, check_err-Reports}
use ffi_demo.Ffi.Slices.{zeros, as_byte_array32}
use ffi_demo.Ffi.Slices.Laws.{as_byte_array32_lem}
use ffi_demo.Ffi.Abi.{to_fil_registered_seal_proof}
use ffi_demo.Ffi.Replicas.{go_end, as_commitment, to_32_byte_comm_r, to_prover_id}
use ffi_demo.Ffi.Seal.{SealLibs, SealVerifyInfo, to_32_byte_comm_d, call_rust, verify_seal}

-- The array of at most 32 bytes, with zeros after them.
abbrev pub padded : List ℕ → List ℕ
padded bytes = bytes ++ zeros (32 - length bytes)

reported-true : (u : Unwind (Result Bool)) → (reported u ≡ ok true) ↔ (u ≡ returns (ok true))
reported-true (returns (ok b)) = (λ h. ground arith, λ h. ground arith)
reported-true (returns (err e)) = (λ h. absurd (cc), λ h. absurd (ground arith))
reported-true (panics p) = (λ h. absurd (cc), λ h. absurd (cc))

pub as_array :
    (bytes : List ℕ)
    → length bytes ≤ 32
    → go_end (as_byte_array32 bytes) ≡ returns (ok (padded bytes))
unfolding go_end
as_array bytes h = ap go_end ((as_byte_array32_lem bytes).0 h)

-- What Go code gets of a library call that Rust code only passes on.
pub call_rust-outside :
    {E T : Type 0} ⦃d : Default T⦄ (name : String) (f : E → Unwind (Result T) × E) (w : World E)
    → (call_rust (catch_panic_response name (outside f)) w).0 ≡ returns (reported (f w.ext).0)
unfolding call_rust
call_rust-outside ⦃d⦄ name f w =
    ap returns (check_err-Reports d.default _ _ (catch_panic_response-outside name f w).0)

module _ (L : SealLibs) where
  -- The proof type has a name, the CIDs and the miner convert, and nothing is longer than 32 bytes.
  pub record Convertible (info : SealVerifyInfo) : Type 0 where
    pub sp : RegisteredSealProof
    pub comm_r : List ℕ
    pub comm_d : List ℕ
    pub payload : List ℕ
    pub named : to_fil_registered_seal_proof L.libs.show_int info.seal_proof ≡ ok sp
    pub sealed : L.libs.replica_commitment info.sealed_cid ≡ ok comm_r
    pub unsealed : L.data_commitment info.unsealed_cid ≡ ok comm_d
    pub miner : L.libs.id_address_payload info.miner ≡ ok payload
    pub comm_r_fits : length comm_r ≤ 32
    pub comm_d_fits : length comm_d ≤ 32
    pub payload_fits : length payload ≤ 32
    pub randomness_fits : length info.randomness ≤ 32
    pub interactive_fits : length info.interactive_randomness ≤ 32

module _ {E : Type 0} (L : SealLibs) (api : SealApi E) where
  verify_seal-call :
      (info : SealVerifyInfo) (c : Convertible L info) (w : World E)
      → verify_seal L api info w
        ≡ call_rust
            (Rust.verify_seal api c.sp
              (padded c.comm_r)
              (padded c.comm_d)
              (padded c.payload)
              (padded info.randomness)
              (padded info.interactive_randomness)
              info.number
              info.proof)
            w
  unfolding verify_seal to_32_byte_comm_r to_32_byte_comm_d to_prover_id as_commitment
  verify_seal-call info c w =
      rw
        (
          c.named,
          to_32_byte_comm_r,
          c.sealed,
          as_array c.comm_r c.comm_r_fits,
          to_32_byte_comm_d,
          c.unsealed,
          as_array c.comm_d c.comm_d_fits,
          to_prover_id,
          c.miner,
          as_array c.payload c.payload_fits,
          as_array info.randomness c.randomness_fits,
          as_array info.interactive_randomness c.interactive_fits,
        )
        refl

  -- If the information converts: `VerifySeal` returns true exactly if the proofs' API accepts the proof
  -- for the sector's number and the commitments, the prover, the ticket and the seed that it
  -- converts to, each padded to 32 bytes.
  pub verify_seal-accepts :
      (info : SealVerifyInfo) (c : Convertible L info) (w : World E)
      → ((verify_seal L api info w).0 ≡ returns (ok true)) ↔ (
          (api.verify_seal
            (seal_into_api c.sp)
            (padded c.comm_r)
            (padded c.comm_d)
            (padded c.payload)
            info.number
            (padded info.randomness)
            (padded info.interactive_randomness)
            info.proof
            w.ext).0
          ≡ returns (ok true))
  unfolding Rust.verify_seal
  verify_seal-accepts info c w =
      let f =
        api.verify_seal (seal_into_api c.sp) (padded c.comm_r) (padded c.comm_d) (padded c.payload)
          info.number (padded info.randomness) (padded info.interactive_randomness) info.proof in
      let same = ap (λ o. o.0) (verify_seal-call info c w) ∙ call_rust-outside "verify_seal" f w in
      let (into, back) = reported-true (f w.ext).0 in
      (λ h. into (ground (arith, same, h)), λ h. same ∙ ap returns (back h))
