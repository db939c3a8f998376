-- ===== src/Proofs/Types.antt =====
-- rust/src/proofs/types.rs: the registered proofs and the records of the interface.
pub mod Laws
use ffi_demo.Base.{ℕ, List, [], map}
use ffi_demo.Util.Response.{Default, PathBuf}
use ffi_demo.Proofs.Upstream.{
  ApiRegisteredSealProof, ApiRegisteredPostProof, ApiRegisteredAggregationProof,
  ApiRegisteredUpdateProof,
}

pub data RegisteredSealProof : Type 0 where
  stacked_drg_2kib_v1 stacked_drg_8mib_v1 stacked_drg_512mib_v1 stacked_drg_32gib_v1
        stacked_drg_64gib_v1 :
      RegisteredSealProof
  stacked_drg_2kib_v1_1 stacked_drg_8mib_v1_1 stacked_drg_512mib_v1_1 stacked_drg_32gib_v1_1
        stacked_drg_64gib_v1_1 :
      RegisteredSealProof

unfoldable pub seal_from_api : ApiRegisteredSealProof → RegisteredSealProof
seal_from_api ApiRegisteredSealProof.stacked_drg_2kib_v1 = RegisteredSealProof.stacked_drg_2kib_v1
seal_from_api ApiRegisteredSealProof.stacked_drg_8mib_v1 = RegisteredSealProof.stacked_drg_8mib_v1
seal_from_api ApiRegisteredSealProof.stacked_drg_512mib_v1 =
    RegisteredSealProof.stacked_drg_512mib_v1
seal_from_api ApiRegisteredSealProof.stacked_drg_32gib_v1 = RegisteredSealProof.stacked_drg_32gib_v1
seal_from_api ApiRegisteredSealProof.stacked_drg_64gib_v1 = RegisteredSealProof.stacked_drg_64gib_v1
seal_from_api ApiRegisteredSealProof.stacked_drg_2kib_v1_1 =
    RegisteredSealProof.stacked_drg_2kib_v1_1
seal_from_api ApiRegisteredSealProof.stacked_drg_8mib_v1_1 =
    RegisteredSealProof.stacked_drg_8mib_v1_1
seal_from_api ApiRegisteredSealProof.stacked_drg_512mib_v1_1 =
    RegisteredSealProof.stacked_drg_512mib_v1_1
seal_from_api ApiRegisteredSealProof.stacked_drg_32gib_v1_1 =
    RegisteredSealProof.stacked_drg_32gib_v1_1
seal_from_api ApiRegisteredSealProof.stacked_drg_64gib_v1_1 =
    RegisteredSealProof.stacked_drg_64gib_v1_1

unfoldable pub seal_into_api : RegisteredSealProof → ApiRegisteredSealProof
seal_into_api RegisteredSealProof.stacked_drg_2kib_v1 = ApiRegisteredSealProof.stacked_drg_2kib_v1
seal_into_api RegisteredSealProof.stacked_drg_8mib_v1 = ApiRegisteredSealProof.stacked_drg_8mib_v1
seal_into_api RegisteredSealProof.stacked_drg_512mib_v1 =
    ApiRegisteredSealProof.stacked_drg_512mib_v1
seal_into_api RegisteredSealProof.stacked_drg_32gib_v1 = ApiRegisteredSealProof.stacked_drg_32gib_v1
seal_into_api RegisteredSealProof.stacked_drg_64gib_v1 = ApiRegisteredSealProof.stacked_drg_64gib_v1
seal_into_api RegisteredSealProof.stacked_drg_2kib_v1_1 =
    ApiRegisteredSealProof.stacked_drg_2kib_v1_1
seal_into_api RegisteredSealProof.stacked_drg_8mib_v1_1 =
    ApiRegisteredSealProof.stacked_drg_8mib_v1_1
seal_into_api RegisteredSealProof.stacked_drg_512mib_v1_1 =
    ApiRegisteredSealProof.stacked_drg_512mib_v1_1
seal_into_api RegisteredSealProof.stacked_drg_32gib_v1_1 =
    ApiRegisteredSealProof.stacked_drg_32gib_v1_1
seal_into_api RegisteredSealProof.stacked_drg_64gib_v1_1 =
    ApiRegisteredSealProof.stacked_drg_64gib_v1_1

pub data RegisteredPostProof : Type 0 where
  stacked_drg_winning_2kib_v1 stacked_drg_winning_8mib_v1 stacked_drg_winning_512mib_v1
        stacked_drg_winning_32gib_v1 stacked_drg_winning_64gib_v1 :
      RegisteredPostProof
  stacked_drg_window_2kib_v1 stacked_drg_window_8mib_v1 stacked_drg_window_512mib_v1
        stacked_drg_window_32gib_v1 stacked_drg_window_64gib_v1 :
      RegisteredPostProof

unfoldable pub post_from_api : ApiRegisteredPostProof → RegisteredPostProof
post_from_api ApiRegisteredPostProof.stacked_drg_winning_2kib_v1 =
    RegisteredPostProof.stacked_drg_winning_2kib_v1
post_from_api ApiRegisteredPostProof.stacked_drg_winning_8mib_v1 =
    RegisteredPostProof.stacked_drg_winning_8mib_v1
post_from_api ApiRegisteredPostProof.stacked_drg_winning_512mib_v1 =
    RegisteredPostProof.stacked_drg_winning_512mib_v1
post_from_api ApiRegisteredPostProof.stacked_drg_winning_32gib_v1 =
    RegisteredPostProof.stacked_drg_winning_32gib_v1
post_from_api ApiRegisteredPostProof.stacked_drg_winning_64gib_v1 =
    RegisteredPostProof.stacked_drg_winning_64gib_v1
post_from_api ApiRegisteredPostProof.stacked_drg_window_2kib_v1 =
    RegisteredPostProof.stacked_drg_window_2kib_v1
post_from_api ApiRegisteredPostProof.stacked_drg_window_8mib_v1 =
    RegisteredPostProof.stacked_drg_window_8mib_v1
post_from_api ApiRegisteredPostProof.stacked_drg_window_512mib_v1 =
    RegisteredPostProof.stacked_drg_window_512mib_v1
post_from_api ApiRegisteredPostProof.stacked_drg_window_32gib_v1 =
    RegisteredPostProof.stacked_drg_window_32gib_v1
post_from_api ApiRegisteredPostProof.stacked_drg_window_64gib_v1 =
    RegisteredPostProof.stacked_drg_window_64gib_v1

unfoldable pub post_into_api : RegisteredPostProof → ApiRegisteredPostProof
post_into_api RegisteredPostProof.stacked_drg_winning_2kib_v1 =
    ApiRegisteredPostProof.stacked_drg_winning_2kib_v1
post_into_api RegisteredPostProof.stacked_drg_winning_8mib_v1 =
    ApiRegisteredPostProof.stacked_drg_winning_8mib_v1
post_into_api RegisteredPostProof.stacked_drg_winning_512mib_v1 =
    ApiRegisteredPostProof.stacked_drg_winning_512mib_v1
post_into_api RegisteredPostProof.stacked_drg_winning_32gib_v1 =
    ApiRegisteredPostProof.stacked_drg_winning_32gib_v1
post_into_api RegisteredPostProof.stacked_drg_winning_64gib_v1 =
    ApiRegisteredPostProof.stacked_drg_winning_64gib_v1
post_into_api RegisteredPostProof.stacked_drg_window_2kib_v1 =
    ApiRegisteredPostProof.stacked_drg_window_2kib_v1
post_into_api RegisteredPostProof.stacked_drg_window_8mib_v1 =
    ApiRegisteredPostProof.stacked_drg_window_8mib_v1
post_into_api RegisteredPostProof.stacked_drg_window_512mib_v1 =
    ApiRegisteredPostProof.stacked_drg_window_512mib_v1
post_into_api RegisteredPostProof.stacked_drg_window_32gib_v1 =
    ApiRegisteredPostProof.stacked_drg_window_32gib_v1
post_into_api RegisteredPostProof.stacked_drg_window_64gib_v1 =
    ApiRegisteredPostProof.stacked_drg_window_64gib_v1

pub data RegisteredAggregationProof : Type 0 where
  snark_pack_v1 : RegisteredAggregationProof

unfoldable pub aggregation_from_api : ApiRegisteredAggregationProof → RegisteredAggregationProof
aggregation_from_api ApiRegisteredAggregationProof.snark_pack_v1 =
    RegisteredAggregationProof.snark_pack_v1

unfoldable pub aggregation_into_api : RegisteredAggregationProof → ApiRegisteredAggregationProof
aggregation_into_api RegisteredAggregationProof.snark_pack_v1 =
    ApiRegisteredAggregationProof.snark_pack_v1

pub data RegisteredUpdateProof : Type 0 where
  stacked_drg_2kib_v1 stacked_drg_8mib_v1 stacked_drg_512mib_v1 stacked_drg_32gib_v1
        stacked_drg_64gib_v1 :
      RegisteredUpdateProof

unfoldable pub update_from_api : ApiRegisteredUpdateProof → RegisteredUpdateProof
update_from_api ApiRegisteredUpdateProof.stacked_drg_2kib_v1 =
    RegisteredUpdateProof.stacked_drg_2kib_v1
update_from_api ApiRegisteredUpdateProof.stacked_drg_8mib_v1 =
    RegisteredUpdateProof.stacked_drg_8mib_v1
update_from_api ApiRegisteredUpdateProof.stacked_drg_512mib_v1 =
    RegisteredUpdateProof.stacked_drg_512mib_v1
update_from_api ApiRegisteredUpdateProof.stacked_drg_32gib_v1 =
    RegisteredUpdateProof.stacked_drg_32gib_v1
update_from_api ApiRegisteredUpdateProof.stacked_drg_64gib_v1 =
    RegisteredUpdateProof.stacked_drg_64gib_v1

unfoldable pub update_into_api : RegisteredUpdateProof → ApiRegisteredUpdateProof
update_into_api RegisteredUpdateProof.stacked_drg_2kib_v1 =
    ApiRegisteredUpdateProof.stacked_drg_2kib_v1
update_into_api RegisteredUpdateProof.stacked_drg_8mib_v1 =
    ApiRegisteredUpdateProof.stacked_drg_8mib_v1
update_into_api RegisteredUpdateProof.stacked_drg_512mib_v1 =
    ApiRegisteredUpdateProof.stacked_drg_512mib_v1
update_into_api RegisteredUpdateProof.stacked_drg_32gib_v1 =
    ApiRegisteredUpdateProof.stacked_drg_32gib_v1
update_into_api RegisteredUpdateProof.stacked_drg_64gib_v1 =
    ApiRegisteredUpdateProof.stacked_drg_64gib_v1

-- A 32-byte array is the list of its bytes.
abbrev pub Bytes32 : Type 0
Bytes32 = List ℕ

pub record PublicPieceInfo : Type 0 where
  pub num_bytes : ℕ
  pub comm_p : Bytes32

-- `api::PieceInfo`
pub record PieceInfo : Type 0 where
  pub commitment : Bytes32
  pub size : ℕ

-- `From<&PublicPieceInfo> for api::PieceInfo`
unfoldable pub piece_info : PublicPieceInfo → PieceInfo
piece_info x = record { commitment = x.comm_p; size = x.num_bytes }

pub record PostProof : Type 0 where
  pub registered_proof : RegisteredPostProof
  pub proof : List ℕ

abbrev pub dummy_post : RegisteredPostProof
dummy_post = RegisteredPostProof.stacked_drg_window_32gib_v1

instance abbrev pub post_proof_default : Default PostProof
post_proof_default = record { default = record { registered_proof = dummy_post; proof = [] } }

pub record PartitionSnarkProof : Type 0 where
  pub registered_proof : RegisteredPostProof
  pub proof : List ℕ

instance abbrev pub partition_snark_proof_default : Default PartitionSnarkProof
partition_snark_proof_default = record {
  default = record { registered_proof = dummy_post; proof = [] };
}

pub record PrivateReplicaInfo : Type 0 where
  pub registered_proof : RegisteredPostProof
  pub cache_dir_path : List ℕ
  pub comm_r : Bytes32
  pub replica_path : List ℕ
  pub sector_id : ℕ

pub record PublicReplicaInfo : Type 0 where
  pub registered_proof : RegisteredPostProof
  pub comm_r : Bytes32
  pub sector_id : ℕ

pub record GenerateWindowPost : Type 0 where
  pub proofs : List PostProof
  pub faulty_sectors : List ℕ

instance abbrev pub generate_window_post_default : Default GenerateWindowPost
generate_window_post_default = record { default = record { proofs = []; faulty_sectors = [] } }

pub record GenerateSingleWindowPostWithVanilla : Type 0 where
  pub partition_proof : PartitionSnarkProof
  pub faulty_sectors : List ℕ

instance abbrev pub single_window_post_default : Default GenerateSingleWindowPostWithVanilla
single_window_post_default = record {
  default = record { partition_proof = partition_snark_proof_default.default; faulty_sectors = [] };
}

pub record GenerateFallbackSectorChallenges : Type 0 where
  pub ids : List ℕ
  pub challenges : List (List ℕ)

instance abbrev pub fallback_default : Default GenerateFallbackSectorChallenges
fallback_default = record { default = record { ids = []; challenges = [] } }

pub record AggregationInputs : Type 0 where
  pub comm_r : Bytes32
  pub comm_d : Bytes32
  pub sector_id : ℕ
  pub ticket : Bytes32
  pub seed : Bytes32
