-- ===== src/Proofs/Update/Prove.antt =====
-- rust/src/proofs/api.rs: generating and verifying the proofs of empty sector updates.
use ffi_demo.Base.{ℕ, Bool, List}
use ffi_demo.Base.Effect.{lift, ◌>>=◌}
use ffi_demo.Util.World.{World, outside}
use ffi_demo.Util.Response.{unit_default, list_default, Response, as_path_buf}
use ffi_demo.Util.CatchPanic.{catch_panic_response}
use ffi_demo.Proofs.Types.{Bytes32, RegisteredUpdateProof, update_into_api}
use ffi_demo.Proofs.Post.{bool_default}
use ffi_demo.Proofs.Update.{UpdateApi}

module _ {E : Type 0} (api : UpdateApi E) where
  unfoldable pub generate_empty_sector_update_partition_proofs :
      RegisteredUpdateProof
      → Bytes32
      → Bytes32
      → Bytes32
      → List ℕ
      → List ℕ
      → List ℕ
      → List ℕ
      → World E
      → Response (List (List ℕ)) × World E
  unfolding catch_panic_response
  generate_empty_sector_update_partition_proofs registered_proof comm_r_old comm_r_new comm_d_new
        sector_key_path sector_key_cache_dir_path replica_path replica_cache_path =
      catch_panic_response "generate_empty_sector_update_partition_proofs" (do
        key ← lift (as_path_buf sector_key_path)
        key_cache ← lift (as_path_buf sector_key_cache_dir_path)
        replica ← lift (as_path_buf replica_path)
        replica_cache ← lift (as_path_buf replica_cache_path)
        outside (
            api.generate_partition_proofs (update_into_api registered_proof) comm_r_old comm_r_new
              comm_d_new key key_cache replica replica_cache))

  unfoldable pub verify_empty_sector_update_partition_proofs :
      RegisteredUpdateProof
      → List (List ℕ)
      → Bytes32
      → Bytes32
      → Bytes32
      → World E
      → Response Bool × World E
  unfolding catch_panic_response
  verify_empty_sector_update_partition_proofs registered_proof proofs comm_r_old comm_r_new
        comm_d_new =
      catch_panic_response "verify_empty_sector_update_partition_proofs" (
        outside (
          api.verify_partition_proofs (update_into_api registered_proof) proofs comm_r_old
            comm_r_new comm_d_new))

  unfoldable pub generate_empty_sector_update_proof_with_vanilla :
      RegisteredUpdateProof
      → List (List ℕ)
      → Bytes32
      → Bytes32
      → Bytes32
      → World E
      → Response (List ℕ) × World E
  unfolding catch_panic_response
  generate_empty_sector_update_proof_with_vanilla registered_proof vanilla_proofs comm_r_old
        comm_r_new comm_d_new =
      catch_panic_response "generate_empty_sector_update_proof_with_vanilla" (
        outside (
          api.generate_empty_sector_update_proof_with_vanilla (update_into_api registered_proof)
            vanilla_proofs comm_r_old comm_r_new comm_d_new))

  unfoldable pub generate_empty_sector_update_proof :
      RegisteredUpdateProof
      → Bytes32
      → Bytes32
      → Bytes32
      → List ℕ
      → List ℕ
      → List ℕ
      → List ℕ
      → World E
      → Response (List ℕ) × World E
  unfolding catch_panic_response
  generate_empty_sector_update_proof registered_proof comm_r_old comm_r_new comm_d_new
        sector_key_path sector_key_cache_dir_path replica_path replica_cache_path =
      catch_panic_response "generate_empty_sector_update_proof" (do
        key ← lift (as_path_buf sector_key_path)
        key_cache ← lift (as_path_buf sector_key_cache_dir_path)
        replica ← lift (as_path_buf replica_path)
        replica_cache ← lift (as_path_buf replica_cache_path)
        outside (
            api.generate_empty_sector_update_proof (update_into_api registered_proof) comm_r_old
              comm_r_new comm_d_new key key_cache replica replica_cache))

  unfoldable pub verify_empty_sector_update_proof :
      RegisteredUpdateProof
      → List ℕ
      → Bytes32
      → Bytes32
      → Bytes32
      → World E
      → Response Bool × World E
  unfolding catch_panic_response
  verify_empty_sector_update_proof registered_proof proof comm_r_old comm_r_new comm_d_new =
      catch_panic_response "verify_empty_sector_update_proof" (
        outside (
          api.verify_empty_sector_update_proof (update_into_api registered_proof) proof comm_r_old
            comm_r_new comm_d_new))
