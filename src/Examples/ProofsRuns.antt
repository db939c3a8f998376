-- ===== src/Examples/ProofsRuns.antt =====
-- A small proofs library that fails window proofs on sector 3 and panics on empty pieces.
use ffi_demo.Base.{ℕ, suc, refl, ◌≡◌, ◌↔◌, true, List, [], ◌∷◌, concat, ◌==◌, if◌then◌else◌}
use ffi_demo.Base.Effect.{
  static_str, message, faulty_sectors, Result, ok, err, Unwind, returns, panics,
}
use ffi_demo.Util.World.{World}
use ffi_demo.Util.Response.{no_error, as_path_buf}
use ffi_demo.Proofs.Types.{
  RegisteredPostProof, RegisteredSealProof, PostProof, PrivateReplicaInfo, PublicReplicaInfo,
  PieceInfo, post_into_api, seal_into_api,
}
use ffi_demo.Proofs.Helpers.{
  BtreeMap, ApiPrivateReplicaInfo, insert, collect_into, private_map, to_private_replica_info_map,
}
use ffi_demo.Proofs.Post.{ApiProofs, PostApi, verify_winning_post}
use ffi_demo.Proofs.Post.Window.{verify_window_post}
use ffi_demo.Proofs.Post.Laws.{verify-accepts}
use ffi_demo.Proofs.Seal.{
  SealApi, seal_pre_commit_phase1, seal_pre_commit_phase2, seal_commit_phase1, seal_commit_phase2,
}
use ffi_demo.Proofs.Seal.Phases.{IsSerde, seal-pipeline}
use ffi_demo.Proofs.Unseal.{unseal_range, generate_piece_commitment}
use ffi_demo.Proofs.Unseal.Laws.{closed_by, unseal_range-closed, generate_piece_commitment-closed}
use ffi_demo.Examples.Concrete.{world}

abbrev pub empty : World ℕ
empty = world 0

abbrev post : RegisteredPostProof
post = RegisteredPostProof.stacked_drg_window_32gib_v1

abbrev seal : RegisteredSealProof
seal = RegisteredSealProof.stacked_drg_32gib_v1_1

abbrev pub one_proof : ApiProofs
one_proof = (post_into_api post, 7 ∷ []) ∷ []

abbrev no_sector_3 : {A : Type 0} → Unwind (Result A)
no_sector_3 = returns (err (faulty_sectors (3 ∷ []) "faulty sectors"))

abbrev pub post_api : PostApi ℕ
post_api = record {
  generate_winning_post_sector_challenge = λ p r n q e. (returns (ok (0 ∷ [])), suc e);
  generate_fallback_sector_challenges = λ p r ids q e. (returns (ok []), suc e);
  generate_single_vanilla_proof = λ p k r c e. (returns (ok (5 ∷ [])), suc e);
  generate_winning_post_with_vanilla = λ p r q v e. (returns (ok one_proof), suc e);
  generate_winning_post = λ r m q e. (returns (ok one_proof), suc e);
  verify_winning_post = λ r b m q e. (returns (ok true), suc e);
  generate_window_post_with_vanilla = λ p r q v e. (no_sector_3, suc e);
  generate_window_post = λ r m q e. (returns (ok one_proof), suc e);
  verify_window_post = λ r b m q e. (panics (static_str "bad"), suc e);
  merge_window_post_partition_proofs = λ p l e. (returns (ok (concat l)), suc e);
  get_num_partition_for_fallback_post = λ p n e. (returns (ok 1), suc e);
  generate_single_window_post_with_vanilla = λ p r q v i e. (returns (ok (6 ∷ [])), suc e);
}

abbrev piece : PieceInfo
piece = record { commitment = 1 ∷ []; size = 127 }

abbrev read_byte : List ℕ → Result ℕ
read_byte [] = err (message "no bytes")
read_byte (b ∷ bytes) = ok b

abbrev commit_piece : ℕ → Unwind (Result PieceInfo)
commit_piece size = if size == 0 then panics (static_str "empty piece") else returns (ok piece)

abbrev pub seal_api : SealApi ℕ
seal_api = record {
  Phase1Output = ℕ;
  CommitPhase1Output = ℕ;
  add_piece = λ p s d n l e. (returns (ok (piece, n)), suc e);
  amount_sub = λ a b. returns 0;
  write_and_preprocess = λ p s d n e. (returns (ok (piece, n)), suc e);
  fauxrep = λ p c s e. (returns (ok []), suc e);
  fauxrep2 = λ p c s e. (returns (ok []), suc e);
  seal_pre_commit_phase1 = λ p c s d q k t l e. (returns (ok k), suc e);
  phase1_to_vec = λ x. ok (x ∷ []);
  phase1_from_slice = read_byte;
  seal_pre_commit_phase2 = λ x c s e. (
    returns (ok (record { registered_proof = seal_into_api seal; comm_r = []; comm_d = [] })),
    suc e,
  );
  seal_commit_phase1 = λ c r q k t s o l e. (returns (ok k), suc e);
  commit1_to_vec = λ x. ok (x ∷ []);
  commit1_from_slice = read_byte;
  seal_commit_phase2 = λ x q k e. (returns (ok (x ∷ k ∷ [])), suc e);
  file_path = λ fd e. ok (fd ∷ []);
  get_unsealed_range_mapped = λ p c s o q k d t i n e. (returns (err (message "no")), suc e);
  verify_seal = λ p r d q k t s b e. (returns (ok true), suc e);
  generate_piece_commitment = λ p fd n e. (commit_piece n, suc e);
  compute_comm_d = λ p l e. (returns (ok []), suc e);
  clear_cache = λ n c e. (returns (ok tt), suc e);
}

abbrev public_replica : ℕ → ℕ → PublicReplicaInfo
public_replica k b = record { registered_proof = post; comm_r = b ∷ []; sector_id = k }

-- Sector 5 comes twice.
abbrev publics : List PublicReplicaInfo
publics = public_replica 5 1 ∷ public_replica 2 1 ∷ public_replica 5 9 ∷ []

abbrev privates : List PrivateReplicaInfo
privates =
    record {
      registered_proof = post;
      cache_dir_path = 1 ∷ [];
      comm_r = 2 ∷ [];
      replica_path = 3 ∷ [];
      sector_id = 4;
    }
    ∷ []

abbrev private_4 : BtreeMap ApiPrivateReplicaInfo
private_4 =
    (
      4,
      record {
        registered_proof = post_into_api post;
        comm_r = 2 ∷ [];
        cache_dir_path = 1 ∷ [];
        replica_path = 3 ∷ [];
      },
    )
    ∷ []

privates_map : to_private_replica_info_map privates ≡ ok private_4
unfolding to_private_replica_info_map private_map as_path_buf collect_into insert
privates_map = refl

abbrev checked : List PostProof
checked = record { registered_proof = post; proof = 7 ∷ [] } ∷ []

verify-accepts_example :
    (((verify_winning_post post_api [] publics checked [] empty).0.value ≡ true)
      ↔ (returns (ok true) ≡ returns (ok true)))
    × (((verify_window_post post_api [] publics checked [] empty).0.value ≡ true)
        ↔ (panics (static_str "bad") ≡ returns (ok true)))
verify-accepts_example = verify-accepts post_api [] [] publics checked empty

unseal_range-closed_example :
    let out = unseal_range seal_api seal [] 3 4 1 [] [] [] 0 10 empty in
    out.1.closed ≡ closed_by out.0.status_code (4 ∷ 3 ∷ [])
unseal_range-closed_example = unseal_range-closed seal_api seal [] 3 4 1 [] [] [] 0 10 empty

generate_piece_commitment-closed_example :
    let out = generate_piece_commitment seal_api seal 3 0 empty in
    (out.1.closed ≡ 3 ∷ []) × (out.1.ext ≡ 1)
generate_piece_commitment-closed_example = generate_piece_commitment-closed seal_api seal 3 0 empty

seal_api-IsSerde : IsSerde seal_api
seal_api-IsSerde = record {
  phase1_bytes = λ x. x ∷ [];
  phase1_writes = λ x. refl;
  phase1_reads = λ x. refl;
  commit1_bytes = λ x. x ∷ [];
  commit1_writes = λ x. refl;
  commit1_reads = λ x. refl;
}

seal-pipeline_example :
    let o1 = seal_pre_commit_phase1 seal_api seal [] [] [] 8 [] [] [] empty in
    let o2 = seal_pre_commit_phase2 seal_api o1.0.value [] [] o1.1 in
    let v = o2.0.value in
    let o3 =
      seal_commit_phase1 seal_api v.registered_proof v.comm_r v.comm_d [] [] 8 [] [] [] [] o2.1 in
    let o4 = seal_commit_phase2 seal_api o3.0.value 8 [] o3.1 in
    (o1.0.status_code ≡ no_error)
    × (o2.0.status_code ≡ no_error)
    × (o3.0.status_code ≡ no_error)
    × (o4.0.status_code ≡ no_error)
    × (o4.0.value ≡ 8 ∷ 8 ∷ [])
    × (o4.1.ext ≡ 4)
seal-pipeline_example =
    seal-pipeline seal_api seal_api-IsSerde seal [] [] [] [] 8 [] [] [] [] empty 8
      (record { registered_proof = seal_into_api seal; comm_r = []; comm_d = [] }) 8 (8 ∷ 8 ∷ []) 1
      2 3 4 refl refl refl refl
