-- ===== src/Proofs/Types/Laws.antt =====
-- The two sides of the interface name the same proofs.
use ffi_demo.Base.{◌≡◌, refl}
use ffi_demo.Proofs.Upstream.{
  ApiRegisteredSealProof, ApiRegisteredPostProof, ApiRegisteredAggregationProof,
  ApiRegisteredUpdateProof,
}
use ffi_demo.Proofs.Types.{
  RegisteredSealProof, RegisteredPostProof, RegisteredAggregationProof, RegisteredUpdateProof,
  seal_from_api, seal_into_api, post_from_api, post_into_api, aggregation_from_api,
  aggregation_into_api, update_from_api, update_into_api,
}

pub seal_from_api-into : (p : RegisteredSealProof) → seal_from_api (seal_into_api p) ≡ p
unfolding seal_from_api seal_into_api
seal_from_api-into RegisteredSealProof.stacked_drg_2kib_v1 = refl
seal_from_api-into RegisteredSealProof.stacked_drg_8mib_v1 = refl
seal_from_api-into RegisteredSealProof.stacked_drg_512mib_v1 = refl
seal_from_api-into RegisteredSealProof.stacked_drg_32gib_v1 = refl
seal_from_api-into RegisteredSealProof.stacked_drg_64gib_v1 = refl
seal_from_api-into RegisteredSealProof.stacked_drg_2kib_v1_1 = refl
seal_from_api-into RegisteredSealProof.stacked_drg_8mib_v1_1 = refl
seal_from_api-into RegisteredSealProof.stacked_drg_512mib_v1_1 = refl
seal_from_api-into RegisteredSealProof.stacked_drg_32gib_v1_1 = refl
seal_from_api-into RegisteredSealProof.stacked_drg_64gib_v1_1 = refl

pub seal_into_api-from : (p : ApiRegisteredSealProof) → seal_into_api (seal_from_api p) ≡ p
unfolding seal_into_api seal_from_api
seal_into_api-from ApiRegisteredSealProof.stacked_drg_2kib_v1 = refl
seal_into_api-from ApiRegisteredSealProof.stacked_drg_8mib_v1 = refl
seal_into_api-from ApiRegisteredSealProof.stacked_drg_512mib_v1 = refl
seal_into_api-from ApiRegisteredSealProof.stacked_drg_32gib_v1 = refl
seal_into_api-from ApiRegisteredSealProof.stacked_drg_64gib_v1 = refl
seal_into_api-from ApiRegisteredSealProof.stacked_drg_2kib_v1_1 = refl
seal_into_api-from ApiRegisteredSealProof.stacked_drg_8mib_v1_1 = refl
seal_into_api-from ApiRegisteredSealProof.stacked_drg_512mib_v1_1 = refl
seal_into_api-from ApiRegisteredSealProof.stacked_drg_32gib_v1_1 = refl
seal_into_api-from ApiRegisteredSealProof.stacked_drg_64gib_v1_1 = refl

pub post_from_api-into : (p : RegisteredPostProof) → post_from_api (post_into_api p) ≡ p
unfolding post_from_api post_into_api
post_from_api-into RegisteredPostProof.stacked_drg_winning_2kib_v1 = refl
post_from_api-into RegisteredPostProof.stacked_drg_winning_8mib_v1 = refl
post_from_api-into RegisteredPostProof.stacked_drg_winning_512mib_v1 = refl
post_from_api-into RegisteredPostProof.stacked_drg_winning_32gib_v1 = refl
post_from_api-into RegisteredPostProof.stacked_drg_winning_64gib_v1 = refl
post_from_api-into RegisteredPostProof.stacked_drg_window_2kib_v1 = refl
post_from_api-into RegisteredPostProof.stacked_drg_window_8mib_v1 = refl
post_from_api-into RegisteredPostProof.stacked_drg_window_512mib_v1 = refl
post_from_api-into RegisteredPostProof.stacked_drg_window_32gib_v1 = refl
post_from_api-into RegisteredPostProof.stacked_drg_window_64gib_v1 = refl

pub post_into_api-from : (p : ApiRegisteredPostProof) → post_into_api (post_from_api p) ≡ p
unfolding post_into_api post_from_api
post_into_api-from ApiRegisteredPostProof.stacked_drg_winning_2kib_v1 = refl
post_into_api-from ApiRegisteredPostProof.stacked_drg_winning_8mib_v1 = refl
post_into_api-from ApiRegisteredPostProof.stacked_drg_winning_512mib_v1 = refl
post_into_api-from ApiRegisteredPostProof.stacked_drg_winning_32gib_v1 = refl
post_into_api-from ApiRegisteredPostProof.stacked_drg_winning_64gib_v1 = refl
post_into_api-from ApiRegisteredPostProof.stacked_drg_window_2kib_v1 = refl
post_into_api-from ApiRegisteredPostProof.stacked_drg_window_8mib_v1 = refl
post_into_api-from ApiRegisteredPostProof.stacked_drg_window_512mib_v1 = refl
post_into_api-from ApiRegisteredPostProof.stacked_drg_window_32gib_v1 = refl
post_into_api-from ApiRegisteredPostProof.stacked_drg_window_64gib_v1 = refl

pub aggregation_from_api-into :
    (p : RegisteredAggregationProof) → aggregation_from_api (aggregation_into_api p) ≡ p
unfolding aggregation_from_api aggregation_into_api
aggregation_from_api-into RegisteredAggregationProof.snark_pack_v1 = refl

pub aggregation_into_api-from :
    (p : ApiRegisteredAggregationProof) → aggregation_into_api (aggregation_from_api p) ≡ p
unfolding aggregation_into_api aggregation_from_api
aggregation_into_api-from ApiRegisteredAggregationProof.snark_pack_v1 = refl

pub update_from_api-into : (p : RegisteredUpdateProof) → update_from_api (update_into_api p) ≡ p
unfolding update_from_api update_into_api
update_from_api-into RegisteredUpdateProof.stacked_drg_2kib_v1 = refl
update_from_api-into RegisteredUpdateProof.stacked_drg_8mib_v1 = refl
update_from_api-into RegisteredUpdateProof.stacked_drg_512mib_v1 = refl
update_from_api-into RegisteredUpdateProof.stacked_drg_32gib_v1 = refl
update_from_api-into RegisteredUpdateProof.stacked_drg_64gib_v1 = refl

pub update_into_api-from : (p : ApiRegisteredUpdateProof) → update_into_api (update_from_api p) ≡ p
unfolding update_into_api update_from_api
update_into_api-from ApiRegisteredUpdateProof.stacked_drg_2kib_v1 = refl
update_into_api-from ApiRegisteredUpdateProof.stacked_drg_8mib_v1 = refl
update_into_api-from ApiRegisteredUpdateProof.stacked_drg_512mib_v1 = refl
update_into_api-from ApiRegisteredUpdateProof.stacked_drg_32gib_v1 = refl
update_into_api-from ApiRegisteredUpdateProof.stacked_drg_64gib_v1 = refl

-- For each of the four kinds of registered proofs, the conversions to and from the API are inverse to
-- each other.
pub conversions_inverse :
    ((p : RegisteredSealProof) → seal_from_api (seal_into_api p) ≡ p)
    × ((p : ApiRegisteredSealProof) → seal_into_api (seal_from_api p) ≡ p)
    × ((p : RegisteredPostProof) → post_from_api (post_into_api p) ≡ p)
    × ((p : ApiRegisteredPostProof) → post_into_api (post_from_api p) ≡ p)
    × ((p : RegisteredAggregationProof) → aggregation_from_api (aggregation_into_api p) ≡ p)
    × ((p : ApiRegisteredAggregationProof) → aggregation_into_api (aggregation_from_api p) ≡ p)
    × ((p : RegisteredUpdateProof) → update_from_api (update_into_api p) ≡ p)
    × ((p : ApiRegisteredUpdateProof) → update_into_api (update_from_api p) ≡ p)
conversions_inverse = (
  seal_from_api-into, seal_into_api-from, post_from_api-into, post_into_api-from,
  aggregation_from_api-into, aggregation_into_api-from, update_from_api-into, update_into_api-from,
)
