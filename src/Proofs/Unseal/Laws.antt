-- ===== src/Proofs/Unseal/Laws.antt =====
-- Which descriptors of the caller are closed.
use ffi_demo.Base.{ℕ, ◌≡◌, List, [], ◌∷◌, ◌++◌, append-nil, append_assoc, arith}
use ffi_demo.Base.Effect.{Unwind, returns, panics}
use ffi_demo.Util.World.{World}
use ffi_demo.Util.Response.{no_error, FcpResponseStatus}
use ffi_demo.Proofs.Types.{Bytes32, RegisteredSealProof, seal_into_api}
use ffi_demo.Proofs.Seal.{SealApi}
use ffi_demo.Proofs.Unseal.{unseal_range, generate_piece_commitment}

-- The descriptors that are closed, by the status of the response.
abbrev pub closed_by : FcpResponseStatus → List ℕ → List ℕ
closed_by no_error fds = []
closed_by _ fds = fds

abbrev pub closed_on_panic : {A : Type 0} → Unwind A → List ℕ → List ℕ
closed_on_panic (returns _) fds = []
closed_on_panic (panics _) fds = fds

module _ {E : Type 0} (api : SealApi E) where
  -- `unseal_range` leaves both descriptors of the caller open if it reports no error; if it reports
  -- one it has closed both, the output first.
  pub unseal_range-closed :
      (p : RegisteredSealProof) (cache : List ℕ) (sealed output sector_id : ℕ)
      (prover_id ticket comm_d : Bytes32) (index amount : ℕ) (w : World E)
      → let out =
          unseal_range api p cache sealed output sector_id prover_id ticket comm_d index amount w in
        out.1.closed ≡ w.closed ++ closed_by out.0.status_code (output ∷ sealed ∷ [])
  unfolding unseal_range
  unseal_range-closed p cache sealed output sector_id prover_id ticket comm_d index amount w =
      ground (arith, append-nil w.closed, append_assoc w.closed (output ∷ []) (sealed ∷ []))

  -- `generate_piece_commitment` leaves the descriptor of the caller open if the library returns, also
  -- with an error, and closes it if the library panics; the state outside is as the library leaves it.
  pub generate_piece_commitment-closed :
      (p : RegisteredSealProof) (fd size : ℕ) (w : World E)
      → let run = api.generate_piece_commitment (seal_into_api p) fd size w.ext in
        let out = generate_piece_commitment api p fd size w in
        (out.1.closed ≡ w.closed ++ closed_on_panic run.0 (fd ∷ [])) × (out.1.ext ≡ run.1)
  unfolding generate_piece_commitment
  generate_piece_commitment-closed p fd size w = ground (arith, append-nil w.closed)
