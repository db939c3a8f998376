-- ===== src/Ffi/Pieces/Laws.antt =====
-- What `GeneratePieceCID` reports.
use ffi_demo.Base.{ℕ, ◌≡◌, refl, ap, ◌∙◌, List}
use ffi_demo.Base.Effect.{Result, ok, err, returns}
use ffi_demo.Util.World.{World}
use ffi_demo.Proofs.Seal.{SealApi}
use ffi_demo.Ffi.Abi.{AbiSealProof}
use ffi_demo.Ffi.Seal.{SealLibs}
use ffi_demo.Ffi.Pieces.{undef, Os, generate_piece_cid_from_file, after_piece, generate_piece_cid}

-- The CID of a commitment that was made, or `cid.Undef`.
abbrev pub or_undef : Result (List ℕ) → List ℕ
or_undef (ok pcd) = pcd
or_undef (err e) = undef

module _ {E : Type 0} (L : SealLibs) (api : SealApi E) (os : Os E) where
  after_piece_lem :
      (fd : ℕ) (r : Result (List ℕ)) (w : World E)
      → let closed = os.close_file fd w.ext in
        after_piece L api os fd (returns r, w)
        ≡ (returns (or_undef r, closed.0), record w { ext = closed.1 })
  unfolding after_piece
  after_piece_lem fd (ok pcd) w = refl
  after_piece_lem fd (err e) w = refl

  -- A file that opens, and a commitment that is made or that fails without a panic: `GeneratePieceCID`
  -- closes the file, once and last, and its error is the error of `Close` and nothing else; so a
  -- failed commitment gives `cid.Undef`, and no error if the file closes.
  pub generate_piece_cid-close :
      (proof_type : AbiSealProof) (path : List ℕ) (size fd : ℕ) (w : World E) (r : Result (List ℕ))
      → (os.open_file path w.ext).0 ≡ ok fd
      → let made =
          generate_piece_cid_from_file L api os proof_type fd size
            (record w { ext = (os.open_file path w.ext).1 }) in
        made.0 ≡ returns r
        → let closed = os.close_file fd made.1.ext in
          let out = generate_piece_cid L api os proof_type path size w in
          (out.0 ≡ returns (or_undef r, closed.0)) × (out.1.ext ≡ closed.1)
  unfolding generate_piece_cid after_piece
  generate_piece_cid-close proof_type path size fd w r opened made =
      let run =
        generate_piece_cid_from_file L api os proof_type fd size
          (record w { ext = (os.open_file path w.ext).1 }) in
      let out : generate_piece_cid L api os proof_type path size w ≡ after_piece L api os fd run =
        rw (generate_piece_cid, opened) refl in
      let ends =
        out ∙ ap (λ u. after_piece L api os fd (u, run.1)) made ∙ after_piece_lem fd r run.1 in
      (ap (λ o. o.0) ends, ap (λ o. o.1.ext) ends)
