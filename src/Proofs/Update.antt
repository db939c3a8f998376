-- ===== src/Proofs/Update.antt =====
-- rust/src/proofs/api.rs: the exported functions on empty sector updates. `filecoin_proofs_api::update`
-- is a parameter over the state outside.
pub mod Pipeline
pub mod Prove
use ffi_demo.Base.{ℕ, Bool, List, map}
use ffi_demo.Base.Effect.{Result, ok, err, Unwind, returns, panics, Exec, pure, lift, ◌>>=◌, ◌>>◌}
use ffi_demo.Util.World.{World, outside}
use ffi_demo.Util.Response.{Default, unit_default, list_default, Response, PathBuf, as_path_buf}
use ffi_demo.Util.CatchPanic.{catch_panic_response}
use ffi_demo.Proofs.Upstream.{ApiRegisteredUpdateProof}
use ffi_demo.Proofs.Types.{
  Bytes32, RegisteredUpdateProof, update_into_api, PublicPieceInfo, PieceInfo, piece_info,
}
use ffi_demo.Proofs.Post.{LibraryCall, bool_default}
use ffi_demo.Proofs.Seal.{zeros}

-- `EmptySectorUpdateEncodeInto`, and the library's output, which has the same fields
pub record EmptySectorUpdateEncodeInto : Type 0 where
  pub comm_r_new : Bytes32
  pub comm_r_last_new : Bytes32
  pub comm_d_new : Bytes32

pub record EncodeOutput : Type 0 where
  pub comm_r_new : Bytes32
  pub comm_r_last_new : Bytes32
  pub comm_d_new : Bytes32

instance abbrev pub encode_into_default : Default EmptySectorUpdateEncodeInto
encode_into_default = record {
  default = record { comm_r_new = zeros; comm_r_last_new = zeros; comm_d_new = zeros };
}

-- `PartitionProofBytes` and `EmptySectorUpdateProof` are their bytes.
pub record UpdateApi (E : Type 0) : Type 0 where
  pub empty_sector_update_encode_into :
      ApiRegisteredUpdateProof
      → PathBuf
      → PathBuf
      → PathBuf
      → PathBuf
      → PathBuf
      → List PieceInfo
      → LibraryCall E EncodeOutput
  pub empty_sector_update_decode_from :
      ApiRegisteredUpdateProof
      → PathBuf
      → PathBuf
      → PathBuf
      → PathBuf
      → Bytes32
      → LibraryCall E (Unit {0})
  pub empty_sector_update_remove_encoded_data :
      ApiRegisteredUpdateProof
      → PathBuf
      → PathBuf
      → PathBuf
      → PathBuf
      → PathBuf
      → Bytes32
      → LibraryCall E (Unit {0})
  pub generate_partition_proofs :
      ApiRegisteredUpdateProof
      → Bytes32
      → Bytes32
      → Bytes32
      → PathBuf
      → PathBuf
      → PathBuf
      → PathBuf
      → LibraryCall E (List (List ℕ))
  pub verify_partition_proofs :
      ApiRegisteredUpdateProof → List (List ℕ) → Bytes32 → Bytes32 → Bytes32 → LibraryCall E Bool
  pub generate_empty_sector_update_proof_with_vanilla :
      ApiRegisteredUpdateProof
      → List (List ℕ)
      → Bytes32
      → Bytes32
      → Bytes32
      → LibraryCall E (List ℕ)
  pub generate_empty_sector_update_proof :
      ApiRegisteredUpdateProof
      → Bytes32
      → Bytes32
      → Bytes32
      → PathBuf
      → PathBuf
      → PathBuf
      → PathBuf
      → LibraryCall E (List ℕ)
  pub verify_empty_sector_update_proof :
      ApiRegisteredUpdateProof → List ℕ → Bytes32 → Bytes32 → Bytes32 → LibraryCall E Bool

module _ {E : Type 0} (api : UpdateApi E) where
  unfoldable pub empty_sector_update_encode_into :
      RegisteredUpdateProof
      → List ℕ
      → List ℕ
      → List ℕ
      → List ℕ
      → List ℕ
      → List PublicPieceInfo
      → World E
      → Response EmptySectorUpdateEncodeInto × World E
  unfolding catch_panic_response
  empty_sector_update_encode_into registered_proof new_replica_path new_cache_dir_path
        sector_key_path sector_key_cache_dir_path staged_data_path pieces =
      catch_panic_response "empty_sector_update_encode_into" (do
        new_replica ← lift (as_path_buf new_replica_path)
        new_cache ← lift (as_path_buf new_cache_dir_path)
        key ← lift (as_path_buf sector_key_path)
        key_cache ← lift (as_path_buf sector_key_cache_dir_path)
        staged ← lift (as_path_buf staged_data_path)
        output ← outside (
            api.empty_sector_update_encode_into (update_into_api registered_proof) new_replica
              new_cache key key_cache staged (map piece_info pieces))
        pure (record {
          comm_r_new = output.comm_r_new;
          comm_r_last_new = output.comm_r_last_new;
          comm_d_new = output.comm_d_new;
        }))

  unfoldable pub empty_sector_update_decode_from :
      RegisteredUpdateProof
      → List ℕ
      → List ℕ
      → List ℕ
      → List ℕ
      → Bytes32
      → World E
      → Response (Unit {0}) × World E
  unfolding catch_panic_response
  empty_sector_update_decode_from registered_proof out_data_path replica_path sector_key_path
        sector_key_cache_dir_path comm_d_new =
      catch_panic_response "empty_sector_update_decode_from" (do
        out_data ← lift (as_path_buf out_data_path)
        replica ← lift (as_path_buf replica_path)
        key ← lift (as_path_buf sector_key_path)
        key_cache ← lift (as_path_buf sector_key_cache_dir_path)
        outside (
            api.empty_sector_update_decode_from (update_into_api registered_proof) out_data replica
              key key_cache comm_d_new)
        pure tt)

  unfoldable pub empty_sector_update_remove_encoded_data :
      RegisteredUpdateProof
      → List ℕ
      → List ℕ
      → List ℕ
      → List ℕ
      → List ℕ
      → Bytes32
      → World E
      → Response (Unit {0}) × World E
  unfolding catch_panic_response
  empty_sector_update_remove_encoded_data registered_proof sector_key_path sector_key_cache_dir_path
        replica_path replica_cache_path data_path comm_d_new =
      catch_panic_response "empty_sector_update_remove_encoded_data" (do
        key ← lift (as_path_buf sector_key_path)
        key_cache ← lift (as_path_buf sector_key_cache_dir_path)
        replica ← lift (as_path_buf replica_path)
        replica_cache ← lift (as_path_buf replica_cache_path)
        data_file ← lift (as_path_buf data_path)
        outside (
            api.empty_sector_update_remove_encoded_data (update_into_api registered_proof) key
              key_cache replica replica_cache data_file comm_d_new)
        pure tt)
