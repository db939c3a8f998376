-- ===== src/Proofs/Post/Laws.antt =====
-- What the Go side is told about proofs of spacetime.
use ffi_demo.Base.{ℕ, ◌≡◌, ◌↔◌, true, List, [], map, concat, arith}
use ffi_demo.Base.Effect.{display, Result, ok, err, Unwind, returns, panics}
use ffi_demo.Util.World.{World}
use ffi_demo.Util.Response.{Response, no_error, unclassified_error}
use ffi_demo.Util.CatchPanic.{panic_message}
use ffi_demo.Proofs.Types.{
  Bytes32, RegisteredPostProof, PostProof, PrivateReplicaInfo, PublicReplicaInfo,
  GenerateWindowPost, GenerateSingleWindowPostWithVanilla, single_window_post_default,
  post_into_api,
}
use ffi_demo.Proofs.Helpers.{
  BtreeMap, ApiPrivateReplicaInfo, to_public_replica_info_map, to_private_replica_info_map,
}
use ffi_demo.Proofs.Post.{ApiProofs, PostApi, bool_default, post_proof, faulty, verify_winning_post}
use ffi_demo.Proofs.Post.Window.{
  generate_window_post_with_vanilla, generate_window_post, verify_window_post,
  generate_single_window_post_with_vanilla,
}

-- The response for each end of the library call: proofs and no faulty sectors, an error with its
-- text and the faulty sectors if it names them, or a panic with neither.
abbrev pub WindowReports : Unwind (Result ApiProofs) → Response GenerateWindowPost → Type 0
WindowReports (returns (ok output)) r =
    (r.status_code ≡ no_error)
    × (r.error_msg ≡ "")
    × (r.value.proofs ≡ map post_proof output)
    × (r.value.faulty_sectors ≡ [])
WindowReports (returns (err e)) r =
    (r.status_code ≡ unclassified_error)
    × (r.error_msg ≡ display e)
    × (r.value.proofs ≡ [])
    × (r.value.faulty_sectors ≡ faulty e)
WindowReports (panics p) r =
    (r.status_code ≡ unclassified_error)
    × (r.error_msg ≡ panic_message p)
    × (r.value.proofs ≡ [])
    × (r.value.faulty_sectors ≡ [])

-- The same for the function of a single partition, whose error keeps the dummy proof.
abbrev pub SingleReports :
    RegisteredPostProof
    → Unwind (Result (List ℕ))
    → Response GenerateSingleWindowPostWithVanilla
    → Type 0
SingleReports p (returns (ok output)) r =
    (r.status_code ≡ no_error)
    × (r.error_msg ≡ "")
    × (r.value.partition_proof ≡ record { registered_proof = p; proof = output })
    × (r.value.faulty_sectors ≡ [])
SingleReports p (returns (err e)) r =
    (r.status_code ≡ unclassified_error)
    × (r.error_msg ≡ display e)
    × (r.value.partition_proof ≡ single_window_post_default.default.partition_proof)
    × (r.value.faulty_sectors ≡ faulty e)
SingleReports p (panics payload) r =
    (r.status_code ≡ unclassified_error)
    × (r.error_msg ≡ panic_message payload)
    × (r.value.partition_proof ≡ single_window_post_default.default.partition_proof)
    × (r.value.faulty_sectors ≡ [])

module _ {E : Type 0} (api : PostApi E) where
  -- Both functions on the vanilla proofs of a window report every end of the library call, and leave
  -- the state outside as it does.
  pub with_vanilla-reports :
      (p : RegisteredPostProof) (randomness prover_id : Bytes32) (vanilla_proofs : List (List ℕ))
      (partition_index : ℕ) (w : World E)
      → let all =
          api.generate_window_post_with_vanilla
            (post_into_api p)
            randomness
            prover_id
            vanilla_proofs
            w.ext in
        let one =
          api.generate_single_window_post_with_vanilla
            (post_into_api p)
            randomness
            prover_id
            vanilla_proofs
            partition_index
            w.ext in
        let out = generate_window_post_with_vanilla api p randomness prover_id vanilla_proofs w in
        let out1 =
          generate_single_window_post_with_vanilla api p randomness prover_id vanilla_proofs
            partition_index w in
        WindowReports all.0 out.0
        × (out.1.ext ≡ all.1)
        × SingleReports p one.0 out1.0
        × (out1.1.ext ≡ one.1)
  unfolding generate_window_post_with_vanilla generate_single_window_post_with_vanilla
  with_vanilla-reports p randomness prover_id vanilla_proofs partition_index w = ground arith

  -- `generate_window_post` reports every end of the library call on the map of the replicas, and
  -- leaves the state outside as it does.
  pub generate_window_post-reports :
      (randomness prover_id : Bytes32) (replicas : List PrivateReplicaInfo) (w : World E)
      (m : BtreeMap ApiPrivateReplicaInfo)
      → to_private_replica_info_map replicas ≡ ok m
      → let run = api.generate_window_post randomness m prover_id w.ext in
        let out = generate_window_post api randomness replicas prover_id w in
        WindowReports run.0 out.0 × (out.1.ext ≡ run.1)
  unfolding generate_window_post
  generate_window_post-reports randomness prover_id replicas w m h = ground arith

  -- A verification answers true exactly if the library call on the map of the replicas returns true:
  -- an error and a panic are never an acceptance.
  pub verify-accepts :
      (randomness prover_id : Bytes32) (replicas : List PublicReplicaInfo) (proofs : List PostProof)
      (w : World E)
      → let m = to_public_replica_info_map replicas in
        let winning =
          api.verify_winning_post randomness
            (concat (map (λ p. p.proof) proofs))
            m
            prover_id
            w.ext in
        let window =
          api.verify_window_post randomness
            (map (λ p. (post_into_api p.registered_proof, p.proof)) proofs)
            m
            prover_id
            w.ext in
        (((verify_winning_post api randomness replicas proofs prover_id w).0.value ≡ true)
          ↔ (winning.0 ≡ returns (ok true)))
        × (((verify_window_post api randomness replicas proofs prover_id w).0.value ≡ true)
            ↔ (window.0 ≡ returns (ok true)))
  unfolding verify_winning_post verify_window_post
  verify-accepts randomness prover_id replicas proofs w = ground arith

  -- The three functions on window proofs report every end of the library call: the proofs, an error
  -- with its text and the faulty sectors, or a panic. They leave the state outside as the call does.
  -- `generate_window_post` calls the library on the map of the replicas.
  pub window-reports :
      (p : RegisteredPostProof) (randomness prover_id : Bytes32) (vanilla_proofs : List (List ℕ))
      (partition_index : ℕ) (replicas : List PrivateReplicaInfo) (w : World E)
      (m : BtreeMap ApiPrivateReplicaInfo)
      → to_private_replica_info_map replicas ≡ ok m
      → let all =
          api.generate_window_post_with_vanilla
            (post_into_api p)
            randomness
            prover_id
            vanilla_proofs
            w.ext in
        let one =
          api.generate_single_window_post_with_vanilla
            (post_into_api p)
            randomness
            prover_id
            vanilla_proofs
            partition_index
            w.ext in
        let run = api.generate_window_post randomness m prover_id w.ext in
        let out_all =
          generate_window_post_with_vanilla api p randomness prover_id vanilla_proofs w in
        let out_one =
          generate_single_window_post_with_vanilla api p randomness prover_id vanilla_proofs
            partition_index w in
        let out = generate_window_post api randomness replicas prover_id w in
        WindowReports all.0 out_all.0
        × (out_all.1.ext ≡ all.1)
        × SingleReports p one.0 out_one.0
        × (out_one.1.ext ≡ one.1)
        × WindowReports run.0 out.0
        × (out.1.ext ≡ run.1)
  window-reports p randomness prover_id vanilla_proofs partition_index replicas w m h =
      let (a, b, c, d) =
        with_vanilla-reports p randomness prover_id vanilla_proofs partition_index w in
      let (e, f) = generate_window_post-reports randomness prover_id replicas w m h in
      (a, b, c, d, e, f)
