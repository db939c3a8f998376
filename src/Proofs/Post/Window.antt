-- ===== src/Proofs/Post/Window.antt =====
-- rust/src/proofs/api.rs: the exported functions on window proofs.
use ffi_demo.Base.{ℕ, Bool, List, map}
use ffi_demo.Base.Effect.{pure, lift, ◌>>=◌}
use ffi_demo.Util.World.{World, outside}
use ffi_demo.Util.Response.{list_default, Response}
use ffi_demo.Util.CatchPanic.{catch_panic_response, catch_panic_response_raw}
use ffi_demo.Proofs.Types.{
  Bytes32, RegisteredPostProof, PostProof, post_proof_default, PrivateReplicaInfo,
  PublicReplicaInfo, GenerateWindowPost, generate_window_post_default,
  GenerateSingleWindowPostWithVanilla, single_window_post_default, fallback_default, post_into_api,
}
use ffi_demo.Proofs.Helpers.{to_public_replica_info_map, to_private_replica_info_map}
use ffi_demo.Proofs.Post.{
  PostApi, bool_default, size_default, window_response, single_window_response, respond,
}

module _ {E : Type 0} (api : PostApi E) where
  unfoldable pub generate_window_post_with_vanilla :
      RegisteredPostProof
      → Bytes32
      → Bytes32
      → List (List ℕ)
      → World E
      → Response GenerateWindowPost × World E
  unfolding catch_panic_response_raw window_response respond
  generate_window_post_with_vanilla registered_proof randomness prover_id vanilla_proofs =
      catch_panic_response_raw "generate_window_post_with_vanilla" λ w.
        let (r, w') =
          outside
            (api.generate_window_post_with_vanilla (post_into_api registered_proof) randomness
              prover_id vanilla_proofs)
            w in
        (respond window_response r, w')

  unfoldable pub generate_window_post :
      Bytes32 → List PrivateReplicaInfo → Bytes32 → World E → Response GenerateWindowPost × World E
  unfolding catch_panic_response_raw window_response respond
  generate_window_post randomness replicas prover_id =
      catch_panic_response_raw "generate_window_post" λ w.
        let (r, w') =
          (do
            m ← lift (to_private_replica_info_map replicas)
            outside (api.generate_window_post randomness m prover_id))
            w in
        (respond window_response r, w')

  unfoldable pub verify_window_post :
      Bytes32
      → List PublicReplicaInfo
      → List PostProof
      → Bytes32
      → World E
      → Response Bool × World E
  unfolding catch_panic_response
  verify_window_post randomness replicas proofs prover_id =
      catch_panic_response "verify_window_post" (
        outside (
          api.verify_window_post randomness
            (map (λ x. (post_into_api x.registered_proof, x.proof)) proofs)
            (to_public_replica_info_map replicas) prover_id))

  unfoldable pub merge_window_post_partition_proofs :
      RegisteredPostProof → List (List ℕ) → World E → Response PostProof × World E
  unfolding catch_panic_response
  merge_window_post_partition_proofs registered_proof partition_proofs =
      catch_panic_response "merge_window_post_partition_proofs" (do
        proof ← outside (
            api.merge_window_post_partition_proofs (post_into_api registered_proof)
              partition_proofs)
        pure (record { registered_proof = registered_proof; proof = proof }))

  unfoldable pub get_num_partition_for_fallback_post :
      RegisteredPostProof → ℕ → World E → Response ℕ × World E
  unfolding catch_panic_response
  get_num_partition_for_fallback_post registered_proof num_sectors =
      catch_panic_response "get_num_partition_for_fallback_post" (
        outside
          (api.get_num_partition_for_fallback_post (post_into_api registered_proof) num_sectors))

  unfoldable pub generate_single_window_post_with_vanilla :
      RegisteredPostProof
      → Bytes32
      → Bytes32
      → List (List ℕ)
      → ℕ
      → World E
      → Response GenerateSingleWindowPostWithVanilla × World E
  unfolding catch_panic_response_raw single_window_response respond
  generate_single_window_post_with_vanilla registered_proof randomness prover_id vanilla_proofs
        partition_index =
      catch_panic_response_raw "generate_single_window_post_with_vanilla" λ w.
        let (r, w') =
          outside
            (api.generate_single_window_post_with_vanilla (post_into_api registered_proof)
              randomness prover_id vanilla_proofs partition_index)
            w in
        (respond (single_window_response registered_proof) r, w')
