-- ===== src/Ffi/Post/Laws.antt =====
-- The boxes that the functions on proofs of spacetime allocate.
use mathlib.Core.Path.{subst}
use ffi_demo.Base.{ℕ, ◌≡◌, refl, sym, ◌∙◌, inl, inr, List, length, map}
use ffi_demo.Base.Effect.{ok, err, Unwind, Result, returns, panics, Exec, continue, ◌>>=◌}
use ffi_demo.Util.World.{World}
use ffi_demo.Util.Response.{Response}
use ffi_demo.Proofs.Post.{PostApi}
use ffi_demo.Proofs.Post as Rust
use ffi_demo.Ffi.Slices.{as_byte_array32}
use ffi_demo.Ffi.Boxes.{Fresh}
use ffi_demo.Ffi.Replicas.{
  GoLibs, PrivateSectorInfo, CPrivateReplicaInfo, replica_view, go_end, to_prover_id,
  make_cleaner_pri, to_fil_private_replica_infos,
}
use ffi_demo.Ffi.Replicas.Laws.{
  CommitmentsOf32, Restored, to_fil_private_replica_infos_lem, cleaner-Restored,
}
use ffi_demo.Ffi.Post.{
  Process, answer, wrap_end, deferring, cgo_call, with_replicas, winning_body,
  generate_winning_post, window_call, window_body, generate_window_post,
}

module _ {E : Type 0} where
  -- A step that leaves the boxes as they are.
  abbrev pub KeepsHeap : {A : Type 0} → Exec (Process E) A → Type 0
  KeepsHeap m = (s : Process E) → (m s).1.heap ≡ s.heap

  pub continue-KeepsHeap :
      {A B : Type 0} (u : Unwind (Result A)) (f : A → Exec (Process E) B)
      → ((a : A) → KeepsHeap (f a))
      → KeepsHeap (continue u f)
  continue-KeepsHeap (returns (ok a)) f h s = h a s
  continue-KeepsHeap (returns (err e)) f h s = refl
  continue-KeepsHeap (panics p) f h s = refl

  pub bind-KeepsHeap :
      {A B : Type 0} (m : Exec (Process E) A) (f : A → Exec (Process E) B)
      → KeepsHeap m
      → ((a : A) → KeepsHeap (f a))
      → KeepsHeap (m >>= f)
  bind-KeepsHeap m f hm hf s = continue-KeepsHeap (m s).0 f hf (m s).1 ∙ hm s

  pub cgo_call-KeepsHeap :
      {T : Type 0} (call : World E → Response T × World E) → KeepsHeap (cgo_call call)
  unfolding cgo_call
  cgo_call-KeepsHeap call s = refl

module _ {E : Type 0} (L : GoLibs) (api : PostApi E) where
  winning_body-KeepsHeap :
      (miner_id : ℕ) (randomness : List ℕ) (replicas : List CPrivateReplicaInfo)
      → KeepsHeap (winning_body L api miner_id randomness replicas)
  unfolding winning_body
  winning_body-KeepsHeap miner_id randomness replicas =
      bind-KeepsHeap (answer (to_prover_id L miner_id)) _ (λ s. refl)
        λ prover_id.
          bind-KeepsHeap (answer (go_end (as_byte_array32 randomness))) _ (λ s. refl)
            λ randomness_bytes.
              let call =
                Rust.generate_winning_post api randomness_bytes (map replica_view replicas)
                  prover_id in
              bind-KeepsHeap (cgo_call call) _ (cgo_call-KeepsHeap call) λ raw_proofs. λ s. refl

  window_body-KeepsHeap :
      (miner_id : ℕ) (randomness : List ℕ) (replicas : List CPrivateReplicaInfo)
      → KeepsHeap (window_body L api miner_id randomness replicas)
  unfolding window_body window_call
  window_body-KeepsHeap miner_id randomness replicas =
      bind-KeepsHeap (answer (to_prover_id L miner_id)) _ (λ s. refl)
        λ prover_id.
          bind-KeepsHeap (answer (go_end (as_byte_array32 randomness))) _ (λ s. refl)
            λ randomness_bytes. λ s. refl

  -- Replicas, a body that leaves the boxes, and the deferred cleanup.
  with_replicas-Restored :
      {A : Type 0} (infos : List PrivateSectorInfo)
      (body : List CPrivateReplicaInfo → Exec (Process E) A) (s : Process E)
      → CommitmentsOf32 L
      → Fresh s.heap
      → ((out : List CPrivateReplicaInfo) → KeepsHeap (body out))
      → Restored s.heap (with_replicas L api infos body s).1.heap
  unfolding with_replicas deferring wrap_end
  with_replicas-Restored infos body s lengths fresh keeps =
      elim (to_fil_private_replica_infos_lem L lengths infos s.heap fresh) [
        | inr (e, h, restored) ↦ rw (with_replicas, h) restored
        | inl (out, b, h, o, reg) ↦
            let (r, h') = to_fil_private_replica_infos L infos s.heap in
            let clean = make_cleaner_pri out (length out) in
            rw (with_replicas, h)
              (subst (λ x. Restored s.heap (clean x)) (sym (keeps out (record s { heap = h' })))
                (cleaner-Restored L lengths s.heap out b h' fresh o reg))
      ]

  -- If commitments have 32 bytes and no box is live that was not allocated: however
  -- `GenerateWinningPoSt` and `GenerateWindowPoSt` end, in a result, an error of Go or of Rust, or a
  -- panic, they have freed every box that they allocated, once, and no other.
  pub generate_post-Restored :
      (miner_id : ℕ) (infos : List PrivateSectorInfo) (randomness : List ℕ) (s : Process E)
      → CommitmentsOf32 L
      → Fresh s.heap
      → Restored s.heap (generate_winning_post L api miner_id infos randomness s).1.heap
        × Restored s.heap (generate_window_post L api miner_id infos randomness s).1.heap
  unfolding generate_winning_post generate_window_post
  generate_post-Restored miner_id infos randomness s lengths fresh = (
    with_replicas-Restored infos (winning_body L api miner_id randomness) s lengths fresh
        (winning_body-KeepsHeap miner_id randomness),
    with_replicas-Restored infos (window_body L api miner_id randomness) s lengths fresh
        (window_body-KeepsHeap miner_id randomness),
  )
