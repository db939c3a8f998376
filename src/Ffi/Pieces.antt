-- ===== src/Ffi/Pieces.antt =====
-- proofs.go: `GeneratePieceCIDFromFile` and `GeneratePieceCID`, with the files of the package `os`.
pub mod Laws
use ffi_demo.Base.{ℕ, Option, none, some, List, []}
use ffi_demo.Base.Effect.{
  Error, Result, ok, err, Unwind, returns, panics, Exec, pure, lift, continue, ◌>>=◌, ◌>>◌,
}
use ffi_demo.Util.World.{World}
use ffi_demo.Util.Response.{Response}
use ffi_demo.Proofs.Seal.{SealApi, GeneratePieceCommitment}
use ffi_demo.Proofs.Unseal as Rust
use ffi_demo.Ffi.Abi.{AbiSealProof, to_fil_registered_seal_proof}
use ffi_demo.Ffi.Seal.{SealLibs, call_rust}

-- A CID is the string of its bytes; no bytes are `cid.Undef`.
abbrev pub undef : List ℕ
undef = []

-- `os.Open` and `Close`, over the state outside; the descriptors of a process are small, so that the
-- conversion to an `int32` leaves them.
pub record Os (E : Type 0) : Type 0 where
  pub open_file : List ℕ → E → Result ℕ × E
  pub close_file : ℕ → E → Option Error × E
  -- `commcid.PieceCommitmentV1ToCID`
  pub piece_cid : List ℕ → Result (List ℕ)

-- The error of a call, which is nil for `none`.
abbrev pub CidAndError : Type 0
CidAndError = List ℕ × Option Error

module _ {E : Type 0} (L : SealLibs) (api : SealApi E) (os : Os E) where
  unfoldable pub generate_piece_cid_from_file : AbiSealProof → ℕ → ℕ → Exec (World E) (List ℕ)
  unfolding call_rust
  generate_piece_cid_from_file proof_type piece_file piece_size = do
    sp ← lift (to_fil_registered_seal_proof L.libs.show_int proof_type)
    resp ← call_rust (Rust.generate_piece_commitment api sp piece_file piece_size)
    lift (os.piece_cid resp.comm_p)

  -- `pieceFile.Close()` as the error of the results
  close_with : List ℕ → ℕ → World E → Unwind CidAndError × World E
  close_with cid piece_file w =
      let (e, ext) = os.close_file piece_file w.ext in (returns (cid, e), record w { ext = ext })

  -- `if err != nil { return cid.Undef, pieceFile.Close() }; return pcd, pieceFile.Close()`
  after_piece : ℕ → Unwind (Result (List ℕ)) × World E → Unwind CidAndError × World E
  unfolding close_with
  after_piece piece_file (returns (ok pcd), w) = close_with pcd piece_file w
  after_piece piece_file (returns (err e), w) = close_with undef piece_file w
  after_piece piece_file (panics p, w) = (panics p, w)

  unfoldable pub generate_piece_cid :
      AbiSealProof → List ℕ → ℕ → World E → Unwind CidAndError × World E
  unfolding generate_piece_cid_from_file after_piece
  generate_piece_cid proof_type piece_path piece_size w =
      let (opened, ext) = os.open_file piece_path w.ext in
      let w' : World E = record w { ext = ext } in
      elim opened [
        | err e ↦ (returns (undef, some e), w')
        | ok piece_file ↦
            after_piece piece_file
              (generate_piece_cid_from_file proof_type piece_file piece_size w')
      ]
