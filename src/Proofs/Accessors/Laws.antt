-- ===== src/Proofs/Accessors/Laws.antt =====
-- The versions that `get_seal_version` and `get_post_version` report (rust/src/proofs/api.rs).
use ffi_demo.Base.{String, ◌≡◌, sym, ap, ◌∙◌, arith}
use ffi_demo.Base.Effect.{ok, returns}
use ffi_demo.Util.Response.{response_of_result}
use ffi_demo.Proofs.Upstream.{ApiRegisteredSealProof, ApiRegisteredPostProof}
use ffi_demo.Proofs.Types.{RegisteredSealProof, RegisteredPostProof, seal_from_api, post_from_api}
use ffi_demo.Proofs.Types.Laws.{seal_from_api-into, post_from_api-into}
use ffi_demo.Proofs.Accessors.{AccessorApi, string_default, get_seal_version, get_post_version}

text_of :
    {a b : String}
    → returns (response_of_result (ok a)) ≡ returns (response_of_result (ok b))
    → a ≡ b
unfolding response_of_result
text_of h = grind arith

-- If the API writes its registered proofs differently from each other, then two registered proofs
-- whose versions are reported alike are the same, for seals and for proofs of spacetime.
pub version-injective :
    (api : AccessorApi)
    → ((p q : ApiRegisteredSealProof) → api.seal.debug p ≡ api.seal.debug q → p ≡ q)
    → ((p q : ApiRegisteredPostProof) → api.post.debug p ≡ api.post.debug q → p ≡ q)
    → ((p q : RegisteredSealProof) → get_seal_version api p ≡ get_seal_version api q → p ≡ q)
      × ((p q : RegisteredPostProof) → get_post_version api p ≡ get_post_version api q → p ≡ q)
unfolding get_seal_version get_post_version
version-injective api seals posts = (
  λ p q h.
      sym (seal_from_api-into p) ∙ ap seal_from_api (seals _ _ (text_of h)) ∙ seal_from_api-into q,
  λ p q h.
      sym (post_from_api-into p) ∙ ap post_from_api (posts _ _ (text_of h)) ∙ post_from_api-into q,
)
