-- ===== src/Proofs/Update/Pipeline.antt =====
-- Partition proofs of rust/src/proofs/api.rs, through the Go side and back.
use ffi_demo.Base.{ℕ, ◌≡◌, ◌↔◌, true, List, arith}
use ffi_demo.Base.Effect.{ok, returns}
use ffi_demo.Util.World.{World}
use ffi_demo.Util.Log.{init_log}
use ffi_demo.Util.Response.{no_error, as_path_buf}
use ffi_demo.Proofs.Types.{Bytes32, RegisteredUpdateProof, update_into_api}
use ffi_demo.Proofs.Update.{UpdateApi}
use ffi_demo.Proofs.Update.Prove.{
  generate_empty_sector_update_partition_proofs, verify_empty_sector_update_partition_proofs,
  generate_empty_sector_update_proof_with_vanilla, verify_empty_sector_update_proof,
}

module _ {E : Type 0} (api : UpdateApi E) where
  -- If the library generates partition proofs, the Go side gets exactly these; verified or turned
  -- into a proof, they reach the library unchanged, in the state that the generation left, and that
  -- proof is verified as it was made.
  pub partition_proofs-pipeline :
      (p : RegisteredUpdateProof) (old new data_new : Bytes32)
      (key key_cache replica replica_cache : List ℕ) (w : World E) (vanilla : List (List ℕ))
      (e e' : E) (proof : List ℕ)
      → api.generate_partition_proofs
          (update_into_api p)
          old
          new
          data_new
          key
          key_cache
          replica
          replica_cache
          w.ext
        ≡ (returns (ok vanilla), e)
      → api.generate_empty_sector_update_proof_with_vanilla
          (update_into_api p)
          vanilla
          old
          new
          data_new
          e
        ≡ (returns (ok proof), e')
      → let made =
          generate_empty_sector_update_partition_proofs api p old new data_new key key_cache replica
            replica_cache w in
        let checked =
          verify_empty_sector_update_partition_proofs api p made.0.value old new data_new made.1 in
        let proved =
          generate_empty_sector_update_proof_with_vanilla api p made.0.value old new data_new
            made.1 in
        let verified =
          verify_empty_sector_update_proof api p proved.0.value old new data_new proved.1 in
        (made.0.status_code ≡ no_error)
        × ((checked.0.value ≡ true) ↔ (
            (api.verify_partition_proofs (update_into_api p) vanilla old new data_new e).0
            ≡ returns (ok true)))
        × (proved.0.status_code ≡ no_error)
        × ((verified.0.value ≡ true) ↔ (
            (api.verify_empty_sector_update_proof (update_into_api p) proof old new data_new e').0
            ≡ returns (ok true)))
  unfolding generate_empty_sector_update_partition_proofs
      verify_empty_sector_update_partition_proofs generate_empty_sector_update_proof_with_vanilla
      verify_empty_sector_update_proof init_log as_path_buf
  partition_proofs-pipeline p old new data_new key key_cache replica replica_cache w vanilla e e'
        proof g h =
      ground arith
