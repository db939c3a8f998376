-- ===== src/Proofs/Post.antt =====
-- rust/src/proofs/api.rs: the exported functions on proofs of spacetime. `filecoin_proofs_api::post` is a
-- parameter over the state outside.
pub mod Laws
pub mod Window
use ffi_demo.Base.{ℕ, Bool, false, List, [], ◌∷◌, map, concat}
use ffi_demo.Base.Map.{Map}
use ffi_demo.Base.Effect.{
  Error, message, faulty_sectors, display, Result, ok, err, Unwind, returns, panics, Exec, pure,
  lift, ◌>>=◌, ◌>>◌,
}
use ffi_demo.Util.World.{World, outside}
use ffi_demo.Util.Response.{
  Default, list_default, Response, default_response, no_error, unclassified_error, PathBuf,
  as_path_buf,
}
use ffi_demo.Util.CatchPanic.{catch_panic_response, catch_panic_response_raw}
use ffi_demo.Proofs.Upstream.{ApiRegisteredPostProof}
use ffi_demo.Proofs.Types.{
  Bytes32, RegisteredPostProof, PostProof, post_proof_default, PartitionSnarkProof,
  PrivateReplicaInfo, PublicReplicaInfo, GenerateWindowPost, generate_window_post_default,
  GenerateSingleWindowPostWithVanilla, single_window_post_default, GenerateFallbackSectorChallenges,
  fallback_default, post_from_api, post_into_api,
}
use ffi_demo.Proofs.Helpers.{
  BtreeMap, ApiPublicReplicaInfo, ApiPrivateReplicaInfo, to_public_replica_info_map,
  to_private_replica_info_map,
}

-- A library call.
abbrev pub LibraryCall : Type 0 → Type 0 → Type 0
LibraryCall E A = E → Unwind (Result A) × E

-- The proofs of a call, as the API returns them.
abbrev pub ApiProofs : Type 0
ApiProofs = List (ApiRegisteredPostProof × List ℕ)

pub record PostApi (E : Type 0) : Type 0 where
  pub generate_winning_post_sector_challenge :
      ApiRegisteredPostProof → Bytes32 → ℕ → Bytes32 → LibraryCall E (List ℕ)
  pub generate_fallback_sector_challenges :
      ApiRegisteredPostProof → Bytes32 → List ℕ → Bytes32 → LibraryCall E (BtreeMap (List ℕ))
  pub generate_single_vanilla_proof :
      ApiRegisteredPostProof → ℕ → ApiPrivateReplicaInfo → List ℕ → LibraryCall E (List ℕ)
  pub generate_winning_post_with_vanilla :
      ApiRegisteredPostProof → Bytes32 → Bytes32 → List (List ℕ) → LibraryCall E ApiProofs
  pub generate_winning_post :
      Bytes32 → BtreeMap ApiPrivateReplicaInfo → Bytes32 → LibraryCall E ApiProofs
  pub verify_winning_post :
      Bytes32 → List ℕ → BtreeMap ApiPublicReplicaInfo → Bytes32 → LibraryCall E Bool
  pub generate_window_post_with_vanilla :
      ApiRegisteredPostProof → Bytes32 → Bytes32 → List (List ℕ) → LibraryCall E ApiProofs
  pub generate_window_post :
      Bytes32 → BtreeMap ApiPrivateReplicaInfo → Bytes32 → LibraryCall E ApiProofs
  pub verify_window_post :
      Bytes32 → ApiProofs → BtreeMap ApiPublicReplicaInfo → Bytes32 → LibraryCall E Bool
  pub merge_window_post_partition_proofs :
      ApiRegisteredPostProof → List (List ℕ) → LibraryCall E (List ℕ)
  pub get_num_partition_for_fallback_post : ApiRegisteredPostProof → ℕ → LibraryCall E ℕ
  pub generate_single_window_post_with_vanilla :
      ApiRegisteredPostProof → Bytes32 → Bytes32 → List (List ℕ) → ℕ → LibraryCall E (List ℕ)

instance abbrev pub bool_default : Default Bool
bool_default = record { default = false }

instance abbrev pub size_default : Default ℕ
size_default = record { default = 0 }

-- the closure over `(t, proof)`
unfoldable pub post_proof : ApiRegisteredPostProof × List ℕ → PostProof
post_proof (t, proof) = record { registered_proof = post_from_api t; proof = proof }

-- `err.downcast_ref::<StorageProofsError>()`, with the sectors of `FaultySectors`
abbrev pub faulty : Error → List ℕ
faulty (message _) = []
faulty (faulty_sectors sectors _) = sectors

-- The `match result` of both functions on window proofs.
unfoldable pub window_response : Result ApiProofs → Response GenerateWindowPost
unfolding post_proof default_response
window_response (ok output) = record default_response {
  status_code = no_error;
  value = record { proofs = map post_proof output; faulty_sectors = [] };
}
window_response (err e) = record {
  status_code = unclassified_error;
  error_msg = display e;
  value = record { proofs = []; faulty_sectors = faulty e };
}

-- The `match result` of `generate_single_window_post_with_vanilla`.
unfoldable pub single_window_response :
    RegisteredPostProof → Result (List ℕ) → Response GenerateSingleWindowPostWithVanilla
unfolding default_response
single_window_response registered_proof (ok output) = record default_response {
  status_code = no_error;
  value = record {
    partition_proof = record { registered_proof = registered_proof; proof = output };
    faulty_sectors = [];
  };
}
single_window_response registered_proof (err e) = record {
  status_code = unclassified_error;
  error_msg = display e;
  value = record single_window_post_default.default { faulty_sectors = faulty e };
}

-- The rest of a raw callback, which does not run if the library panicked.
unfoldable pub respond :
    {A T : Type 0} → (Result A → Response T) → Unwind (Result A) → Unwind (Response T)
respond f (returns r) = returns (f r)
respond f (panics p) = panics p

module _ {E : Type 0} (api : PostApi E) where
  unfoldable pub generate_winning_post_sector_challenge :
      RegisteredPostProof → Bytes32 → ℕ → Bytes32 → World E → Response (List ℕ) × World E
  unfolding catch_panic_response
  generate_winning_post_sector_challenge registered_proof randomness sector_set_len prover_id =
      catch_panic_response "generate_winning_post_sector_challenge" (
        outside (
          api.generate_winning_post_sector_challenge (post_into_api registered_proof) randomness
            sector_set_len prover_id))

  unfoldable pub generate_fallback_sector_challenges :
      RegisteredPostProof
      → Bytes32
      → List ℕ
      → Bytes32
      → World E
      → Response GenerateFallbackSectorChallenges × World E
  unfolding catch_panic_response
  generate_fallback_sector_challenges registered_proof randomness sector_ids prover_id =
      catch_panic_response "generate_fallback_sector_challenges" (do
        output ← outside (
            api.generate_fallback_sector_challenges (post_into_api registered_proof) randomness
              sector_ids prover_id)
        pure (record { ids = map (λ p. p.0) output; challenges = map (λ p. p.1) output }))

  -- both paths under `?`
  unfoldable pub vanilla_body : PrivateReplicaInfo → List ℕ → Exec (World E) (List ℕ)
  vanilla_body replica challenges = do
    cache_dir_path ← lift (as_path_buf replica.cache_dir_path)
    replica_path ← lift (as_path_buf replica.replica_path)
    outside (
        api.generate_single_vanilla_proof (post_into_api replica.registered_proof) replica.sector_id
          (record {
            registered_proof = post_into_api replica.registered_proof;
            comm_r = replica.comm_r;
            cache_dir_path = cache_dir_path;
            replica_path = replica_path;
          })
          challenges)

  unfoldable pub generate_single_vanilla_proof :
      PrivateReplicaInfo → List ℕ → World E → Response (List ℕ) × World E
  unfolding catch_panic_response vanilla_body
  generate_single_vanilla_proof replica challenges =
      catch_panic_response "generate_single_vanilla_proof" (vanilla_body replica challenges)

  unfoldable pub generate_winning_post_with_vanilla :
      RegisteredPostProof
      → Bytes32
      → Bytes32
      → List (List ℕ)
      → World E
      → Response (List PostProof) × World E
  unfolding catch_panic_response post_proof
  generate_winning_post_with_vanilla registered_proof randomness prover_id vanilla_proofs =
      catch_panic_response "generate_winning_post_with_vanilla" (do
        result ← outside (
            api.generate_winning_post_with_vanilla (post_into_api registered_proof) randomness
              prover_id vanilla_proofs)
        pure (map post_proof result))

  unfoldable pub generate_winning_post :
      Bytes32 → List PrivateReplicaInfo → Bytes32 → World E → Response (List PostProof) × World E
  unfolding catch_panic_response post_proof to_private_replica_info_map
  generate_winning_post randomness replicas prover_id =
      catch_panic_response "generate_winning_post" (do
        m ← lift (to_private_replica_info_map replicas)
        result ← outside (api.generate_winning_post randomness m prover_id)
        pure (map post_proof result))

  unfoldable pub verify_winning_post :
      Bytes32
      → List PublicReplicaInfo
      → List PostProof
      → Bytes32
      → World E
      → Response Bool × World E
  unfolding catch_panic_response
  verify_winning_post randomness replicas proofs prover_id =
      catch_panic_response "verify_winning_post" (
        outside (
          api.verify_winning_post randomness (concat (map (λ p. p.proof) proofs))
            (to_public_replica_info_map replicas) prover_id))
