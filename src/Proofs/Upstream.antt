-- ===== src/Proofs/Upstream.antt =====
-- The enumerations of the crate `filecoin_proofs_api`, with the variants that the exhaustive matches of
-- rust/src/proofs/types.rs name.
pub data ApiRegisteredSealProof : Type 0 where
  stacked_drg_2kib_v1 stacked_drg_8mib_v1 stacked_drg_512mib_v1 stacked_drg_32gib_v1
        stacked_drg_64gib_v1 :
      ApiRegisteredSealProof
  stacked_drg_2kib_v1_1 stacked_drg_8mib_v1_1 stacked_drg_512mib_v1_1 stacked_drg_32gib_v1_1
        stacked_drg_64gib_v1_1 :
      ApiRegisteredSealProof

pub data ApiRegisteredPostProof : Type 0 where
  stacked_drg_winning_2kib_v1 stacked_drg_winning_8mib_v1 stacked_drg_winning_512mib_v1
        stacked_drg_winning_32gib_v1 stacked_drg_winning_64gib_v1 :
      ApiRegisteredPostProof
  stacked_drg_window_2kib_v1 stacked_drg_window_8mib_v1 stacked_drg_window_512mib_v1
        stacked_drg_window_32gib_v1 stacked_drg_window_64gib_v1 :
      ApiRegisteredPostProof

pub data ApiRegisteredAggregationProof : Type 0 where
  snark_pack_v1 : ApiRegisteredAggregationProof

pub data ApiRegisteredUpdateProof : Type 0 where
  stacked_drg_2kib_v1 stacked_drg_8mib_v1 stacked_drg_512mib_v1 stacked_drg_32gib_v1
        stacked_drg_64gib_v1 :
      ApiRegisteredUpdateProof
