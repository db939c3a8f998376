-- ===== src/Proofs/Unseal.antt =====
-- rust/src/proofs/api.rs: the functions that wrap a descriptor of the caller in a `File`, and further
-- calls on sealed sectors.
pub mod Laws
use ffi_demo.Base.{ℕ, Bool, List, map}
use ffi_demo.Base.Effect.{
  owned, Result, ok, err, Unwind, returns, panics, Exec, pure, lift, ◌>>=◌, ◌>>◌,
}
use ffi_demo.Util.World.{World, drop_file, outside}
use ffi_demo.Util.Response.{unit_default, Response, PathBuf, as_path_buf}
use ffi_demo.Util.CatchPanic.{catch_panic_response}
use ffi_demo.Proofs.Types.{
  Bytes32, RegisteredSealProof, seal_into_api, PublicPieceInfo, PieceInfo, piece_info,
}
use ffi_demo.Proofs.Post.{bool_default}
use ffi_demo.Proofs.Seal.{
  SealApi, bytes32_default, GeneratePieceCommitment, piece_commitment_default,
}

-- `.unwrap()` of an `io::Result`
unfoldable pub unwrap_io : {A : Type 0} → Result A → Unwind (Result A)
unwrap_io (ok a) = returns (ok a)
unwrap_io (err e) = panics (owned "called `Result::unwrap()` on an `Err` value")

-- `into_raw_fd` comes after the `?`: an error and a panic drop both files, the output first.
unfoldable pub settle : {E A : Type 0} → ℕ → ℕ → Unwind (Result A) → World E → World E
settle sealed_sector unseal_output (returns (ok _)) w = w
settle sealed_sector unseal_output (returns (err _)) w =
    drop_file sealed_sector (drop_file unseal_output w)
settle sealed_sector unseal_output (panics _) w =
    drop_file sealed_sector (drop_file unseal_output w)

-- `into_raw_fd` comes before the `?`: only a panic of the call drops the file.
unfoldable pub release : {E A : Type 0} → ℕ → Unwind (Result A) → World E → World E
release piece_file (returns _) w = w
release piece_file (panics _) w = drop_file piece_file w

module _ {E : Type 0} (api : SealApi E) where
  unfoldable pub sealed_path : ℕ → Exec (World E) PathBuf
  unfolding unwrap_io
  sealed_path fd w = (unwrap_io (api.file_path fd w.ext), w)

  -- the library call with its arguments
  unfoldable pub unseal_call :
      RegisteredSealProof
      → List ℕ
      → ℕ
      → ℕ
      → ℕ
      → Bytes32
      → Bytes32
      → Bytes32
      → ℕ
      → ℕ
      → Exec (World E) (Unit {0})
  unfolding sealed_path
  unseal_call registered_proof cache_dir_path sealed_sector unseal_output sector_id prover_id ticket
        comm_d unpadded_byte_index unpadded_bytes_amount =
      do
        cache ← lift (as_path_buf cache_dir_path)
        path ← sealed_path sealed_sector
        outside (
            api.get_unsealed_range_mapped (seal_into_api registered_proof) cache path unseal_output
              prover_id sector_id comm_d ticket unpadded_byte_index unpadded_bytes_amount)

  unfoldable pub unseal_range :
      RegisteredSealProof
      → List ℕ
      → ℕ
      → ℕ
      → ℕ
      → Bytes32
      → Bytes32
      → Bytes32
      → ℕ
      → ℕ
      → World E
      → Response (Unit {0}) × World E
  unfolding catch_panic_response unseal_call settle
  unseal_range registered_proof cache_dir_path sealed_sector_fd_raw unseal_output_fd_raw sector_id
        prover_id ticket comm_d unpadded_byte_index unpadded_bytes_amount =
      catch_panic_response "unseal_range" λ w.
        let (r, w') =
          unseal_call registered_proof cache_dir_path sealed_sector_fd_raw unseal_output_fd_raw
            sector_id prover_id ticket comm_d unpadded_byte_index unpadded_bytes_amount w in
        (r, settle sealed_sector_fd_raw unseal_output_fd_raw r w')

  unfoldable pub verify_seal :
      RegisteredSealProof
      → Bytes32
      → Bytes32
      → Bytes32
      → Bytes32
      → Bytes32
      → ℕ
      → List ℕ
      → World E
      → Response Bool × World E
  unfolding catch_panic_response
  verify_seal registered_proof comm_r comm_d prover_id ticket seed sector_id proof =
      catch_panic_response "verify_seal" (
        outside (
          api.verify_seal (seal_into_api registered_proof) comm_r comm_d prover_id sector_id ticket
            seed proof))

  -- `result.map(..)?`
  unfoldable pub piece_commitment :
      Unwind (Result PieceInfo) → Unwind (Result GeneratePieceCommitment)
  piece_commitment (returns (ok meta)) =
      returns (ok (record { comm_p = meta.commitment; num_bytes_aligned = meta.size }))
  piece_commitment (returns (err e)) = returns (err e)
  piece_commitment (panics p) = panics p

  unfoldable pub generate_piece_commitment :
      RegisteredSealProof → ℕ → ℕ → World E → Response GeneratePieceCommitment × World E
  unfolding catch_panic_response release piece_commitment
  generate_piece_commitment registered_proof piece_fd_raw unpadded_piece_size =
      catch_panic_response "generate_piece_commitment" λ w.
        let (r, w') =
          outside
            (api.generate_piece_commitment (seal_into_api registered_proof) piece_fd_raw
              unpadded_piece_size)
            w in
        (piece_commitment r, release piece_fd_raw r w')

  unfoldable pub generate_data_commitment :
      RegisteredSealProof → List PublicPieceInfo → World E → Response Bytes32 × World E
  unfolding catch_panic_response
  generate_data_commitment registered_proof pieces =
      catch_panic_response ⦃d = bytes32_default⦄ "generate_data_commitment"
        (outside (api.compute_comm_d (seal_into_api registered_proof) (map piece_info pieces)))

  unfoldable pub clear_cache : ℕ → List ℕ → World E → Response (Unit {0}) × World E
  unfolding catch_panic_response
  clear_cache sector_size cache_dir_path =
      catch_panic_response "clear_cache"
        (do cache ← lift (as_path_buf cache_dir_path); outside (api.clear_cache sector_size cache))
