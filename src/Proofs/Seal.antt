-- ===== src/Proofs/Seal.antt =====
-- rust/src/proofs/api.rs: exported functions on sealing. `filecoin_proofs_api::seal` and `filepath` are a
-- parameter over the state outside.
pub mod Phases
use ffi_demo.Base.{ℕ, Bool, List, [], map, replicate}
use ffi_demo.Base.Effect.{
  owned, Result, ok, err, Unwind, returns, panics, Exec, pure, panic, lift, continue, ◌>>=◌, ◌>>◌,
}
use ffi_demo.Util.World.{World, drop_file, outside}
use ffi_demo.Util.Response.{Default, unit_default, list_default, Response, PathBuf, as_path_buf}
use ffi_demo.Util.CatchPanic.{catch_panic_response}
use ffi_demo.Proofs.Upstream.{ApiRegisteredSealProof}
use ffi_demo.Proofs.Types.{
  Bytes32, RegisteredSealProof, seal_into_api, seal_from_api, PublicPieceInfo, PieceInfo,
  piece_info,
}
use ffi_demo.Proofs.Post.{LibraryCall, bool_default}

-- `seal::SealPreCommitPhase2Output`
pub record PreCommitOutput : Type 0 where
  pub registered_proof : ApiRegisteredSealProof
  pub comm_r : Bytes32
  pub comm_d : Bytes32

-- Descriptors are numbers. The phase outputs that are only passed on are kept as types, with
-- `serde_json` on them.
pub record SealApi (E : Type 0) : Type 1 where
  pub Phase1Output : Type 0
  pub CommitPhase1Output : Type 0
  pub add_piece : ApiRegisteredSealProof → ℕ → ℕ → ℕ → List ℕ → LibraryCall E (PieceInfo × ℕ)
  -- `Sub for UnpaddedBytesAmount`
  pub amount_sub : ℕ → ℕ → Unwind ℕ
  pub write_and_preprocess : ApiRegisteredSealProof → ℕ → ℕ → ℕ → LibraryCall E (PieceInfo × ℕ)
  pub fauxrep : ApiRegisteredSealProof → PathBuf → PathBuf → LibraryCall E Bytes32
  pub fauxrep2 : ApiRegisteredSealProof → PathBuf → PathBuf → LibraryCall E Bytes32
  pub seal_pre_commit_phase1 :
      ApiRegisteredSealProof
      → PathBuf
      → PathBuf
      → PathBuf
      → Bytes32
      → ℕ
      → Bytes32
      → List PieceInfo
      → LibraryCall E Phase1Output
  pub phase1_to_vec : Phase1Output → Result (List ℕ)
  pub phase1_from_slice : List ℕ → Result Phase1Output
  pub seal_pre_commit_phase2 : Phase1Output → PathBuf → PathBuf → LibraryCall E PreCommitOutput
  pub seal_commit_phase1 :
      PathBuf
      → PathBuf
      → Bytes32
      → ℕ
      → Bytes32
      → Bytes32
      → PreCommitOutput
      → List PieceInfo
      → LibraryCall E CommitPhase1Output
  pub commit1_to_vec : CommitPhase1Output → Result (List ℕ)
  pub commit1_from_slice : List ℕ → Result CommitPhase1Output
  pub seal_commit_phase2 : CommitPhase1Output → Bytes32 → ℕ → LibraryCall E (List ℕ)
  -- `FilePath::path` of the sealed sector
  pub file_path : ℕ → E → Result PathBuf
  pub get_unsealed_range_mapped :
      ApiRegisteredSealProof
      → PathBuf
      → PathBuf
      → ℕ
      → Bytes32
      → ℕ
      → Bytes32
      → Bytes32
      → ℕ
      → ℕ
      → LibraryCall E (Unit {0})
  pub verify_seal :
      ApiRegisteredSealProof
      → Bytes32
      → Bytes32
      → Bytes32
      → ℕ
      → Bytes32
      → Bytes32
      → List ℕ
      → LibraryCall E Bool
  pub generate_piece_commitment : ApiRegisteredSealProof → ℕ → ℕ → LibraryCall E PieceInfo
  pub compute_comm_d : ApiRegisteredSealProof → List PieceInfo → LibraryCall E Bytes32
  pub clear_cache : ℕ → PathBuf → LibraryCall E (Unit {0})

abbrev pub zeros : Bytes32
zeros = replicate 32 0

-- `Default for [u8; 32]`; as a plain argument, since byte strings have another default.
abbrev pub bytes32_default : Default Bytes32
bytes32_default = record { default = zeros }

pub record WriteWithAlignment : Type 0 where
  pub comm_p : Bytes32
  pub left_alignment_unpadded : ℕ
  pub total_write_unpadded : ℕ

instance abbrev pub write_with_alignment_default : Default WriteWithAlignment
write_with_alignment_default = record {
  default = record { comm_p = zeros; left_alignment_unpadded = 0; total_write_unpadded = 0 };
}

pub record WriteWithoutAlignment : Type 0 where
  pub comm_p : Bytes32
  pub total_write_unpadded : ℕ

instance abbrev pub write_without_alignment_default : Default WriteWithoutAlignment
write_without_alignment_default = record {
  default = record { comm_p = zeros; total_write_unpadded = 0 };
}

pub record SealPreCommitPhase2 : Type 0 where
  pub registered_proof : RegisteredSealProof
  pub comm_d : Bytes32
  pub comm_r : Bytes32

instance abbrev pub pre_commit_default : Default SealPreCommitPhase2
pre_commit_default = record {
  default = record {
    registered_proof = RegisteredSealProof.stacked_drg_2kib_v1_1;
    comm_d = zeros;
    comm_r = zeros;
  };
}

pub record GeneratePieceCommitment : Type 0 where
  pub comm_p : Bytes32
  pub num_bytes_aligned : ℕ

instance abbrev pub piece_commitment_default : Default GeneratePieceCommitment
piece_commitment_default = record { default = record { comm_p = zeros; num_bytes_aligned = 0 } }

module _ {E : Type 0} (api : SealApi E) where
  -- A call that returns a plain value, or panics.
  unfoldable pub plain : {A : Type 0} → Unwind A → Exec (World E) A
  plain (returns a) = pure a
  plain (panics p) = panic p

  unfoldable pub write_with_alignment :
      RegisteredSealProof → ℕ → ℕ → ℕ → List ℕ → World E → Response WriteWithAlignment × World E
  unfolding catch_panic_response plain
  write_with_alignment registered_proof src_fd src_size dst_fd existing_piece_sizes =
      catch_panic_response "write_with_alignment" (do
        (info, written) ← outside (
            api.add_piece (seal_into_api registered_proof) src_fd dst_fd src_size
              existing_piece_sizes)
        left ← plain (api.amount_sub written src_size)
        pure (record {
          comm_p = info.commitment;
          left_alignment_unpadded = left;
          total_write_unpadded = written;
        }))

  unfoldable pub write_without_alignment :
      RegisteredSealProof → ℕ → ℕ → ℕ → World E → Response WriteWithoutAlignment × World E
  unfolding catch_panic_response
  write_without_alignment registered_proof src_fd src_size dst_fd =
      catch_panic_response "write_without_alignment" (do
        (info, written) ←
            outside
              (api.write_and_preprocess (seal_into_api registered_proof) src_fd dst_fd src_size)
        pure (record { comm_p = info.commitment; total_write_unpadded = written }))

  unfoldable pub fauxrep :
      RegisteredSealProof → List ℕ → List ℕ → World E → Response Bytes32 × World E
  unfolding catch_panic_response
  fauxrep registered_proof cache_dir_path sealed_sector_path =
      catch_panic_response ⦃d = bytes32_default⦄ "fauxrep" (do
        cache ← lift (as_path_buf cache_dir_path)
        sealed ← lift (as_path_buf sealed_sector_path)
        outside (api.fauxrep (seal_into_api registered_proof) cache sealed))

  unfoldable pub fauxrep2 :
      RegisteredSealProof → List ℕ → List ℕ → World E → Response Bytes32 × World E
  unfolding catch_panic_response
  fauxrep2 registered_proof cache_dir_path existing_p_aux_path =
      catch_panic_response ⦃d = bytes32_default⦄ "fauxrep2" (do
        cache ← lift (as_path_buf cache_dir_path)
        p_aux ← lift (as_path_buf existing_p_aux_path)
        outside (api.fauxrep2 (seal_into_api registered_proof) cache p_aux))

  unfoldable pub seal_pre_commit_phase1 :
      RegisteredSealProof
      → List ℕ
      → List ℕ
      → List ℕ
      → ℕ
      → Bytes32
      → Bytes32
      → List PublicPieceInfo
      → World E
      → Response (List ℕ) × World E
  unfolding catch_panic_response
  seal_pre_commit_phase1 registered_proof cache_dir_path staged_sector_path sealed_sector_path
        sector_id prover_id ticket pieces =
      catch_panic_response "seal_pre_commit_phase1" (do
        cache ← lift (as_path_buf cache_dir_path)
        staged ← lift (as_path_buf staged_sector_path)
        sealed ← lift (as_path_buf sealed_sector_path)
        result ← outside (
            api.seal_pre_commit_phase1 (seal_into_api registered_proof) cache staged sealed
              prover_id sector_id ticket (map piece_info pieces))
        lift (api.phase1_to_vec result))

  unfoldable pub seal_pre_commit_phase2 :
      List ℕ → List ℕ → List ℕ → World E → Response SealPreCommitPhase2 × World E
  unfolding catch_panic_response
  seal_pre_commit_phase2 seal_pre_commit_phase1_output cache_dir_path sealed_sector_path =
      catch_panic_response "seal_pre_commit_phase2" (do
        phase_1_output ← lift (api.phase1_from_slice seal_pre_commit_phase1_output)
        cache ← lift (as_path_buf cache_dir_path)
        sealed ← lift (as_path_buf sealed_sector_path)
        output ← outside (api.seal_pre_commit_phase2 phase_1_output cache sealed)
        pure (record {
          registered_proof = seal_from_api output.registered_proof;
          comm_d = output.comm_d;
          comm_r = output.comm_r;
        }))

  unfoldable pub seal_commit_phase1 :
      RegisteredSealProof
      → Bytes32
      → Bytes32
      → List ℕ
      → List ℕ
      → ℕ
      → Bytes32
      → Bytes32
      → Bytes32
      → List PublicPieceInfo
      → World E
      → Response (List ℕ) × World E
  unfolding catch_panic_response
  seal_commit_phase1 registered_proof comm_r comm_d cache_dir_path replica_path sector_id prover_id
        ticket seed pieces =
      let spcp2o : PreCommitOutput = record {
        registered_proof = seal_into_api registered_proof;
        comm_r = comm_r;
        comm_d = comm_d;
      } in
      catch_panic_response "seal_commit_phase1" (do
        cache ← lift (as_path_buf cache_dir_path)
        replica ← lift (as_path_buf replica_path)
        output ← outside (
            api.seal_commit_phase1 cache replica prover_id sector_id ticket seed spcp2o
              (map piece_info pieces))
        lift (api.commit1_to_vec output))

  unfoldable pub seal_commit_phase2 : List ℕ → ℕ → Bytes32 → World E → Response (List ℕ) × World E
  unfolding catch_panic_response
  seal_commit_phase2 seal_commit_phase1_output sector_id prover_id =
      catch_panic_response "seal_commit_phase2" (do
        scp1o ← lift (api.commit1_from_slice seal_commit_phase1_output)
        outside (api.seal_commit_phase2 scp1o prover_id sector_id))
