-- ===== src/Ffi/Post/Leaks.antt =====
-- The boxes that `VerifyWinningPoSt` allocates for the proofs.
use mathlib.Core.Path.{subst}
use ffi_demo.Base.{
  ℕ, suc, ◌+◌, ◌≤◌, ◌≡◌, refl, sym, ◌∙◌, List, [], ◌∷◌, ◌++◌, map, length, ltb, if◌then◌else◌,
  arith,
}
use ffi_demo.Base.Effect.{ok, returns}
use ffi_demo.Proofs.Types.{RegisteredPostProof, PublicReplicaInfo}
use ffi_demo.Proofs.Post.{PostApi}
use ffi_demo.Proofs.Post as Rust
use ffi_demo.Ffi.Slices.{as_byte_array32}
use ffi_demo.Ffi.Abi.{to_fil_registered_post_proof}
use ffi_demo.Ffi.Boxes.{Heap, Fresh, Region, Region-start, alloc-Region, alloc_slice_boxed}
use ffi_demo.Ffi.Replicas.{
  GoLibs, SectorInfo, GoPostProof, CPostProof, proof_view, go_end, to_prover_id, post_proofs_from,
  to_fil_post_proofs, winning, to_fil_public_replica_infos,
}
use ffi_demo.Ffi.Post.{Process, answer, wrap_end, verify_body, proofs_and_body, verify_winning_post}
use ffi_demo.Ffi.Post.Laws.{KeepsHeap, bind-KeepsHeap, cgo_call-KeepsHeap}

-- Of the boxes since `base` there are `n`, and all of them are live.
abbrev pub Leaked : Heap → ℕ → Heap → Type 0
Leaked base n h =
    (h.next_box ≡ base.next_box + n)
    × ((i : ℕ)
        → h.live i ≡ (if ltb i base.next_box then base.live i else ltb i (base.next_box + n)))

module _ (L : GoLibs) where
  -- Each proof has a type that the code names.
  abbrev pub AllNamed : List GoPostProof → Type 0
  AllNamed [] = Unit
  AllNamed (p ∷ src) =
      ((r : RegisteredPostProof) × (to_fil_registered_post_proof L.show_int p.post_proof ≡ ok r))
      × AllNamed src

  post_proofs_from-Region :
      (base : Heap) (src : List GoPostProof) (out : List CPostProof) (b : ℕ) (h : Heap)
      → base.next_box ≤ b
      → Region base base.next_box b h
      → AllNamed src
      → (out' : List CPostProof) × ((post_proofs_from L out src h).0 ≡ returns (ok out'))
        × Region base base.next_box (b + length src) (post_proofs_from L out src h).1
  unfolding post_proofs_from alloc_slice_boxed
  post_proofs_from-Region base [] out b h l reg named =
      let whole : b + 0 ≡ b = omega arith in rw whole (out, refl, reg)
  post_proofs_from-Region base (p ∷ src) out b h l reg ((r, k), named) =
      let next : b + suc (length src) ≡ suc b + length src = omega arith in
      let (box, h') = alloc_slice_boxed p.proof_bytes h in
      rw (next, post_proofs_from, k)
        (post_proofs_from-Region base src
          (out ++ (record { registered_proof = r; proof = box } ∷ [])) (suc b) h' (omega arith)
          (alloc-Region base base.next_box b p.proof_bytes h (omega arith) l reg) named)

  module _ {E : Type 0} (api : PostApi E) where
    verify_body-KeepsHeap :
        (prover : ℕ) (randomness : List ℕ) (replicas : List PublicReplicaInfo)
        (proofs : List CPostProof)
        → KeepsHeap (verify_body L api prover randomness replicas proofs)
    unfolding verify_body
    verify_body-KeepsHeap prover randomness replicas proofs =
        bind-KeepsHeap (answer (to_prover_id L prover)) _ (λ s. refl)
          λ prover_id.
            bind-KeepsHeap (answer (go_end (as_byte_array32 randomness))) _ (λ s. refl)
              λ randomness_bytes. cgo_call-KeepsHeap (
                Rust.verify_winning_post api randomness_bytes replicas (map proof_view proofs)
                  prover_id)

    -- If the sectors are converted, the proofs have types that the code names and no box is live that
    -- was not allocated: however `VerifyWinningPoSt` ends, a box for each proof is live after it, and
    -- nothing has a pointer to it any more.
    pub verify_winning_post-leaks :
        (challenged : List SectorInfo) (replicas : List PublicReplicaInfo)
        (proofs : List GoPostProof) (prover : ℕ) (randomness : List ℕ) (s : Process E)
        → Fresh s.heap
        → to_fil_public_replica_infos L winning challenged ≡ returns (ok replicas)
        → AllNamed proofs
        → Leaked s.heap
            (length proofs)
            (verify_winning_post L api challenged proofs prover randomness s).1.heap
    unfolding verify_winning_post proofs_and_body wrap_end to_fil_post_proofs
    verify_winning_post-leaks challenged replicas proofs prover randomness s fresh converted named =
        let base = s.heap in
        let (out, made, (next, bad, lives)) =
          post_proofs_from-Region base proofs [] base.next_box base (omega arith)
            (Region-start base fresh) named in
        let s' : Process E = record s { heap = (post_proofs_from L [] proofs base).1 } in
        let kept = verify_body-KeepsHeap prover randomness replicas out s' in
        let same : (verify_winning_post L api challenged proofs prover randomness s).1.heap
            ≡ s'.heap =
          rw (verify_winning_post, converted, proofs_and_body, made) kept in
        subst (Leaked base (length proofs)) (sym same) (next, λ i. lives i ∙ ground arith)
