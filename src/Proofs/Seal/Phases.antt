-- ===== src/Proofs/Seal/Phases.antt =====
-- The phases of sealing, chained by the Go side: the bytes that a first phase returns are the input of
-- the second.
use ffi_demo.Base.{ℕ, ◌≡◌, List, map, arith}
use ffi_demo.Base.Effect.{ok, returns}
use ffi_demo.Util.World.{World}
use ffi_demo.Util.Log.{init_log}
use ffi_demo.Util.Response.{no_error, as_path_buf}
use ffi_demo.Proofs.Types.{Bytes32, RegisteredSealProof, seal_into_api, PublicPieceInfo, piece_info}
use ffi_demo.Proofs.Types.Laws.{seal_into_api-from}
use ffi_demo.Proofs.Seal.{
  SealApi, PreCommitOutput, seal_pre_commit_phase1, seal_pre_commit_phase2, seal_commit_phase1,
  seal_commit_phase2,
}

-- `serde_json` writes the phase outputs, and reads back what it has written.
pub record IsSerde {E : Type 0} (api : SealApi E) : Type 0 where
  pub phase1_bytes : api.Phase1Output → List ℕ
  pub phase1_writes : (x : api.Phase1Output) → api.phase1_to_vec x ≡ ok (phase1_bytes x)
  pub phase1_reads : (x : api.Phase1Output) → api.phase1_from_slice (phase1_bytes x) ≡ ok x
  pub commit1_bytes : api.CommitPhase1Output → List ℕ
  pub commit1_writes : (x : api.CommitPhase1Output) → api.commit1_to_vec x ≡ ok (commit1_bytes x)
  pub commit1_reads : (x : api.CommitPhase1Output) → api.commit1_from_slice (commit1_bytes x) ≡ ok x

module _ {E : Type 0} (api : SealApi E) (s : IsSerde api) where
  -- If the library completes the first phase of the pre-commit, its response has no error, and the
  -- second phase on the value of that response calls the library with the very output of the first,
  -- in the state that the first left.
  pub seal_pre_commit-phases :
      (p : RegisteredSealProof) (cache staged sealed : List ℕ) (sector_id : ℕ)
      (prover_id ticket : Bytes32) (pieces : List PublicPieceInfo) (w : World E)
      (x : api.Phase1Output) (e : E)
      → api.seal_pre_commit_phase1
          (seal_into_api p)
          cache
          staged
          sealed
          prover_id
          sector_id
          ticket
          (map piece_info pieces)
          w.ext
        ≡ (returns (ok x), e)
      → let out1 =
          seal_pre_commit_phase1 api p cache staged sealed sector_id prover_id ticket pieces w in
        let out2 = seal_pre_commit_phase2 api out1.0.value cache sealed out1.1 in
        (out1.0.status_code ≡ no_error)
        × (out2.1.ext ≡ (api.seal_pre_commit_phase2 x cache sealed e).1)
  unfolding seal_pre_commit_phase1 seal_pre_commit_phase2 as_path_buf init_log
  seal_pre_commit-phases p cache staged sealed sector_id prover_id ticket pieces w x e h =
      ground (arith, s.phase1_writes x, s.phase1_reads x)

  -- If the library completes the first phase of the commit, and the second on the output of the
  -- first in the state that it left, then the second function on the value of the first's response
  -- reports no error and that proof, and leaves the state as the library does.
  pub seal_commit-phases :
      (p : RegisteredSealProof) (comm_r comm_d : Bytes32) (cache replica : List ℕ) (sector_id : ℕ)
      (prover_id ticket seed : Bytes32) (pieces : List PublicPieceInfo) (w : World E)
      (x : api.CommitPhase1Output) (e e' : E) (proof : List ℕ)
      → api.seal_commit_phase1 cache replica prover_id sector_id ticket seed
          (record { registered_proof = seal_into_api p; comm_r = comm_r; comm_d = comm_d })
          (map piece_info pieces)
          w.ext
        ≡ (returns (ok x), e)
      → api.seal_commit_phase2 x prover_id sector_id e ≡ (returns (ok proof), e')
      → let out1 =
          seal_commit_phase1 api p comm_r comm_d cache replica sector_id prover_id ticket seed
            pieces w in
        let out2 = seal_commit_phase2 api out1.0.value sector_id prover_id out1.1 in
        (out1.0.status_code ≡ no_error)
        × (out2.0.status_code ≡ no_error)
        × (out2.0.value ≡ proof)
        × (out2.1.ext ≡ e')
  unfolding seal_commit_phase1 seal_commit_phase2 as_path_buf init_log
  seal_commit-phases p comm_r comm_d cache replica sector_id prover_id ticket seed pieces w x e e'
        proof h h' =
      ground (arith, s.commit1_writes x, s.commit1_reads x)

  -- The four phases of sealing, chained by the Go side: if the library completes each phase on the
  -- output of the one before, in the state that it left, then the four exported functions, each fed
  -- with the values of the responses before, report no error; the last value is the proof, and the
  -- state outside is that of the last phase.
  pub seal-pipeline :
      (p : RegisteredSealProof) (cache staged sealed replica : List ℕ) (sector_id : ℕ)
      (prover_id ticket seed : Bytes32) (pieces : List PublicPieceInfo) (w : World E)
      (x : api.Phase1Output) (out : PreCommitOutput) (y : api.CommitPhase1Output) (proof : List ℕ)
      (e1 e2 e3 e4 : E)
      → api.seal_pre_commit_phase1
          (seal_into_api p)
          cache
          staged
          sealed
          prover_id
          sector_id
          ticket
          (map piece_info pieces)
          w.ext
        ≡ (returns (ok x), e1)
      → api.seal_pre_commit_phase2 x cache sealed e1 ≡ (returns (ok out), e2)
      → api.seal_commit_phase1 cache replica prover_id sector_id ticket seed out
          (map piece_info pieces)
          e2
        ≡ (returns (ok y), e3)
      → api.seal_commit_phase2 y prover_id sector_id e3 ≡ (returns (ok proof), e4)
      → let o1 =
          seal_pre_commit_phase1 api p cache staged sealed sector_id prover_id ticket pieces w in
        let o2 = seal_pre_commit_phase2 api o1.0.value cache sealed o1.1 in
        let v = o2.0.value in
        let o3 =
          seal_commit_phase1 api v.registered_proof v.comm_r v.comm_d cache replica sector_id
            prover_id ticket seed pieces o2.1 in
        let o4 = seal_commit_phase2 api o3.0.value sector_id prover_id o3.1 in
        (o1.0.status_code ≡ no_error)
        × (o2.0.status_code ≡ no_error)
        × (o3.0.status_code ≡ no_error)
        × (o4.0.status_code ≡ no_error)
        × (o4.0.value ≡ proof)
        × (o4.1.ext ≡ e4)
  unfolding seal_pre_commit_phase1 seal_pre_commit_phase2 seal_commit_phase1 seal_commit_phase2
      as_path_buf init_log
  seal-pipeline p cache staged sealed replica sector_id prover_id ticket seed pieces w x out y proof
        e1 e2 e3 e4 h1 h2 h3 h4 =
      ground (
        arith,
        s.phase1_writes x,
        s.phase1_reads x,
        s.commit1_writes y,
        s.commit1_reads y,
        seal_into_api-from out.registered_proof,
      )
