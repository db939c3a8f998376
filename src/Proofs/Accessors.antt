-- ===== src/Proofs/Accessors.antt =====
-- rust/src/proofs/api.rs: what the library says about a registered proof, and the buffers that the Go side
-- asks for. None of these catches a panic.
pub mod Laws
use ffi_demo.Base.{ℕ, String, List, replicate}
use ffi_demo.Base.Effect.{Result, ok, err, Unwind, returns, panics}
use ffi_demo.Util.Response.{Default, Response, PathBuf, response_of_result}
use ffi_demo.Proofs.Upstream.{ApiRegisteredSealProof, ApiRegisteredPostProof}
use ffi_demo.Proofs.Types.{RegisteredSealProof, RegisteredPostProof, seal_into_api, post_into_api}

-- The methods of the API's `RegisteredSealProof` and `RegisteredPoStProof`; `debug` is `{:?}`, `lossy` is
-- `Path::to_string_lossy`.
pub record ProofInfo (P : Type 0) : Type 0 where
  pub params_cid : P → Unwind (Result String)
  pub verifying_key_cid : P → Unwind (Result String)
  pub cache_params_path : P → Unwind (Result PathBuf)
  pub cache_verifying_key_path : P → Unwind (Result PathBuf)
  pub circuit_identifier : P → Unwind (Result String)
  pub debug : P → String

pub record AccessorApi : Type 0 where
  pub seal : ProofInfo ApiRegisteredSealProof
  pub post : ProofInfo ApiRegisteredPostProof
  pub lossy : PathBuf → String
  -- `sector_size`, then `UnpaddedBytesAmount::from` as a `u64`
  pub sector_size : ApiRegisteredSealProof → ℕ
  pub unpadded : ℕ → ℕ

unfoldable pub alloc_boxed_slice : ℕ → List ℕ
alloc_boxed_slice size = replicate size 0

instance abbrev pub string_default : Default String
string_default = record { default = "" }

-- `StringResponse::from` of a result, unless the library panicked
unfoldable pub string_response : Unwind (Result String) → Unwind (Response String)
unfolding response_of_result
string_response (returns r) = returns (response_of_result r)
string_response (panics p) = panics p

unfoldable pub registered_seal_proof_accessor :
    RegisteredSealProof
    → (ApiRegisteredSealProof → Unwind (Result String))
    → Unwind (Response String)
unfolding string_response
registered_seal_proof_accessor registered_proof op =
    string_response (op (seal_into_api registered_proof))

unfoldable pub registered_post_proof_accessor :
    RegisteredPostProof
    → (ApiRegisteredPostProof → Unwind (Result String))
    → Unwind (Response String)
unfolding string_response
registered_post_proof_accessor registered_proof op =
    string_response (op (post_into_api registered_proof))

-- `.map(|pb| String::from(pb.to_string_lossy()))`
unfoldable pub path_text : (PathBuf → String) → Unwind (Result PathBuf) → Unwind (Result String)
path_text lossy (returns (ok path)) = returns (ok (lossy path))
path_text lossy (returns (err e)) = returns (err e)
path_text lossy (panics p) = panics p

module _ (api : AccessorApi) where
  unfoldable pub get_max_user_bytes_per_staged_sector : RegisteredSealProof → ℕ
  get_max_user_bytes_per_staged_sector registered_proof =
      api.unpadded (api.sector_size (seal_into_api registered_proof))

  unfoldable pub get_seal_params_cid : RegisteredSealProof → Unwind (Response String)
  unfolding registered_seal_proof_accessor
  get_seal_params_cid p = registered_seal_proof_accessor p api.seal.params_cid

  unfoldable pub get_seal_verifying_key_cid : RegisteredSealProof → Unwind (Response String)
  unfolding registered_seal_proof_accessor
  get_seal_verifying_key_cid p = registered_seal_proof_accessor p api.seal.verifying_key_cid

  unfoldable pub get_seal_params_path : RegisteredSealProof → Unwind (Response String)
  unfolding registered_seal_proof_accessor path_text
  get_seal_params_path p =
      registered_seal_proof_accessor p λ q. path_text api.lossy (api.seal.cache_params_path q)

  unfoldable pub get_seal_verifying_key_path : RegisteredSealProof → Unwind (Response String)
  unfolding registered_seal_proof_accessor path_text
  get_seal_verifying_key_path p =
      registered_seal_proof_accessor p
        λ q. path_text api.lossy (api.seal.cache_verifying_key_path q)

  unfoldable pub get_seal_circuit_identifier : RegisteredSealProof → Unwind (Response String)
  unfolding registered_seal_proof_accessor
  get_seal_circuit_identifier p = registered_seal_proof_accessor p api.seal.circuit_identifier

  unfoldable pub get_seal_version : RegisteredSealProof → Unwind (Response String)
  unfolding registered_seal_proof_accessor
  get_seal_version p = registered_seal_proof_accessor p λ q. returns (ok (api.seal.debug q))

  unfoldable pub get_post_params_cid : RegisteredPostProof → Unwind (Response String)
  unfolding registered_post_proof_accessor
  get_post_params_cid p = registered_post_proof_accessor p api.post.params_cid

  unfoldable pub get_post_verifying_key_cid : RegisteredPostProof → Unwind (Response String)
  unfolding registered_post_proof_accessor
  get_post_verifying_key_cid p = registered_post_proof_accessor p api.post.verifying_key_cid

  unfoldable pub get_post_params_path : RegisteredPostProof → Unwind (Response String)
  unfolding registered_post_proof_accessor path_text
  get_post_params_path p =
      registered_post_proof_accessor p λ q. path_text api.lossy (api.post.cache_params_path q)

  unfoldable pub get_post_verifying_key_path : RegisteredPostProof → Unwind (Response String)
  unfolding registered_post_proof_accessor path_text
  get_post_verifying_key_path p =
      registered_post_proof_accessor p
        λ q. path_text api.lossy (api.post.cache_verifying_key_path q)

  unfoldable pub get_post_circuit_identifier : RegisteredPostProof → Unwind (Response String)
  unfolding registered_post_proof_accessor
  get_post_circuit_identifier p = registered_post_proof_accessor p api.post.circuit_identifier

  unfoldable pub get_post_version : RegisteredPostProof → Unwind (Response String)
  unfolding registered_post_proof_accessor
  get_post_version p = registered_post_proof_accessor p λ q. returns (ok (api.post.debug q))
