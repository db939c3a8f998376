-- ===== src/Ffi/Abi/Laws.antt =====
-- The conversions of proof types, back and forth.
use ffi_demo.Base.{◌≡◌, refl, ◌⊎◌, inl, inr, String}
use ffi_demo.Base.Int.{ℤ}
use ffi_demo.Base.Effect.{Error, ok, err}
use ffi_demo.Proofs.Types.{RegisteredPostProof, post_from_api, post_into_api}
use ffi_demo.Ffi.Abi.{AbiPostProof, to_fil_registered_post_proof, from_fil_registered_post_proof}

-- A proof type is either refused by Go, or goes to the API of the proofs and comes back the same.
pub post_proof-back :
    (show : ℤ → String) (p : AbiPostProof)
    → ((r : RegisteredPostProof) × (to_fil_registered_post_proof show p ≡ ok r)
        × (from_fil_registered_post_proof (post_from_api (post_into_api r)) ≡ ok p))
      ⊎ ((e : Error) × (to_fil_registered_post_proof show p ≡ err e))
unfolding to_fil_registered_post_proof from_fil_registered_post_proof post_from_api post_into_api
post_proof-back show AbiPostProof.stacked_drg_winning_2kib_v1 = inl (_, refl, refl)
post_proof-back show AbiPostProof.stacked_drg_winning_8mib_v1 = inl (_, refl, refl)
post_proof-back show AbiPostProof.stacked_drg_winning_512mib_v1 = inl (_, refl, refl)
post_proof-back show AbiPostProof.stacked_drg_winning_32gib_v1 = inl (_, refl, refl)
post_proof-back show AbiPostProof.stacked_drg_winning_64gib_v1 = inl (_, refl, refl)
post_proof-back show AbiPostProof.stacked_drg_window_2kib_v1 = inl (_, refl, refl)
post_proof-back show AbiPostProof.stacked_drg_window_8mib_v1 = inl (_, refl, refl)
post_proof-back show AbiPostProof.stacked_drg_window_512mib_v1 = inl (_, refl, refl)
post_proof-back show AbiPostProof.stacked_drg_window_32gib_v1 = inl (_, refl, refl)
post_proof-back show AbiPostProof.stacked_drg_window_64gib_v1 = inl (_, refl, refl)
post_proof-back show (AbiPostProof.other_post_proof v) = inr (_, refl)
