-- ===== src/Ffi/Post.antt =====
-- proofs.go: `VerifyWinningPoSt`, `GenerateWinningPoSt` and `GenerateWindowPoSt`, over cgo/proofs.go and the
-- exported functions of the Rust library.
pub mod Laws
pub mod Leaks
pub mod Window
use ffi_demo.Base.{ℕ, String, ◌<>◌, Bool, Option, none, some, List, [], map}
use ffi_demo.Base.Effect.{
  message, Error, display, Result, ok, err, Unwind, returns, panics, Exec, pure, lift, continue,
  ◌>>=◌, ◌>>◌,
}
use ffi_demo.Util.World.{World}
use ffi_demo.Util.Response.{FcpResponseStatus, Response}
use ffi_demo.Proofs.Types.{Bytes32, PostProof, PublicReplicaInfo, GenerateWindowPost}
use ffi_demo.Proofs.Post.{PostApi}
use ffi_demo.Proofs.Post as Rust
use ffi_demo.Proofs.Post.Window as RustWindow
use ffi_demo.Ffi.Machine.{check_err}
use ffi_demo.Ffi.Slices.{as_byte_array32}
use ffi_demo.Ffi.Boxes.{Heap}
use ffi_demo.Ffi.Replicas.{
  GoLibs, SectorInfo, PrivateSectorInfo, GoPostProof, CPrivateReplicaInfo, CPostProof, replica_view,
  proof_view, go_end, to_prover_id, make_cleaner_pri, to_fil_private_replica_infos,
  to_fil_post_proofs, from_fil_post_proofs, PostType, winning, window, to_fil_public_replica_infos,
}

-- The boxes that Go allocated, and the state of the Rust library.
pub record Process (E : Type 0) : Type 0 where
  pub heap : Heap
  pub rust : World E

-- `errors.Wrap`
unfoldable pub wrap_end : {A : Type 0} → String → Unwind (Result A) → Unwind (Result A)
wrap_end text (returns (ok a)) = returns (ok a)
wrap_end text (returns (err e)) = returns (err (message (text <> display e)))
wrap_end text (panics p) = panics p

-- What `GenerateWindowPoSt` returns after its call: proofs, or an error with the faulty sectors.
pub data WindowEnd : Type 0 where
  proved : List GoPostProof → WindowEnd
  faulted : List ℕ → Error → WindowEnd

-- `fromFilPoStFaultySectors` is a conversion of the numbers, which are `uint64` on both sides.
unfoldable pub window_end : Response GenerateWindowPost → Unwind (Result WindowEnd)
unfolding check_err from_fil_post_proofs
window_end resp = elim (check_err resp) [
  | err e ↦ returns (ok (faulted resp.value.faulty_sectors e))
  | ok value ↦ elim (from_fil_post_proofs value.proofs) [
    | err e ↦ returns (err e)
    | ok proofs ↦ returns (ok (proved proofs))
  ]
]

module _ {E : Type 0} where
  abbrev pub on_heap : {A : Type 0} → Exec Heap A → Exec (Process E) A
  on_heap m s = let (r, h) = m s.heap in (r, record s { heap = h })

  abbrev pub answer : {A : Type 0} → Unwind (Result A) → Exec (Process E) A
  answer u s = (u, s)

  -- `defer cleanup()`, which runs however the rest ends
  unfoldable pub deferring : {A : Type 0} → (Heap → Heap) → Exec (Process E) A → Exec (Process E) A
  deferring cleanup m s = let (r, s') = m s in (r, record s' { heap = cleanup s'.heap })

  -- A call of an exported function, and `CheckErr`; its response is freed by a `defer` of its own.
  unfoldable pub cgo_call : {T : Type 0} → (World E → Response T × World E) → Exec (Process E) T
  unfolding check_err
  cgo_call call s = let (resp, w) = call s.rust in (returns (check_err resp), record s { rust = w })

  module _ (L : GoLibs) (api : PostApi E) where
    -- The start of both functions that generate: the replicas, and the deferred cleanup.
    unfoldable pub with_replicas :
        {A : Type 0}
        → List PrivateSectorInfo
        → (List CPrivateReplicaInfo → Exec (Process E) A)
        → Exec (Process E) A
    unfolding wrap_end to_fil_private_replica_infos deferring make_cleaner_pri
    with_replicas private_sector_info body s =
        let (r, s') = on_heap (to_fil_private_replica_infos L private_sector_info) s in
        continue (wrap_end "failed to create private replica info array for FFI: " r)
          (λ (fil_replicas, limit).
            deferring (make_cleaner_pri fil_replicas limit) (body fil_replicas))
          s'

    -- What `GenerateWinningPoSt` does once the cleanup is deferred.
    unfoldable pub winning_body :
        ℕ → List ℕ → List CPrivateReplicaInfo → Exec (Process E) (List GoPostProof)
    unfolding go_end as_byte_array32 to_prover_id cgo_call from_fil_post_proofs
    winning_body miner_id randomness fil_replicas = do
      prover_id ← answer (to_prover_id L miner_id)
      randomness_bytes ← answer (go_end (as_byte_array32 randomness))
      raw_proofs ← cgo_call (
          Rust.generate_winning_post api randomness_bytes (map replica_view fil_replicas) prover_id)
      lift (from_fil_post_proofs raw_proofs)

    unfoldable pub generate_winning_post :
        ℕ → List PrivateSectorInfo → List ℕ → Exec (Process E) (List GoPostProof)
    unfolding with_replicas winning_body
    generate_winning_post miner_id private_sector_info randomness =
        with_replicas private_sector_info (winning_body miner_id randomness)

    unfoldable pub window_call :
        Bytes32 → List CPrivateReplicaInfo → Bytes32 → Exec (Process E) WindowEnd
    unfolding window_end
    window_call randomness fil_replicas prover_id s =
        let (resp, w) =
          RustWindow.generate_window_post api randomness (map replica_view fil_replicas) prover_id
            s.rust in
        (window_end resp, record s { rust = w })

    unfoldable pub window_body : ℕ → List ℕ → List CPrivateReplicaInfo → Exec (Process E) WindowEnd
    unfolding go_end as_byte_array32 to_prover_id window_call
    window_body miner_id randomness fil_replicas = do
      prover_id ← answer (to_prover_id L miner_id)
      randomness_bytes ← answer (go_end (as_byte_array32 randomness))
      window_call randomness_bytes fil_replicas prover_id

    unfoldable pub generate_window_post :
        ℕ → List PrivateSectorInfo → List ℕ → Exec (Process E) WindowEnd
    unfolding with_replicas window_body
    generate_window_post miner_id private_sector_info randomness =
        with_replicas private_sector_info (window_body miner_id randomness)

    -- What `VerifyWinningPoSt` does with the replicas and the proofs.
    unfoldable pub verify_body :
        ℕ → List ℕ → List PublicReplicaInfo → List CPostProof → Exec (Process E) Bool
    unfolding to_prover_id go_end as_byte_array32 cgo_call
    verify_body prover randomness replicas fil_proofs = do
      prover_id ← answer (to_prover_id L prover)
      randomness_bytes ← answer (go_end (as_byte_array32 randomness))
      cgo_call (
          Rust.verify_winning_post api randomness_bytes replicas (map proof_view fil_proofs)
            prover_id)

    unfoldable pub proofs_and_body :
        List GoPostProof → ℕ → List ℕ → List PublicReplicaInfo → Exec (Process E) Bool
    unfolding wrap_end to_fil_post_proofs verify_body
    proofs_and_body proofs prover randomness replicas s =
        let (r, s') = on_heap (to_fil_post_proofs L proofs) s in
        continue (wrap_end "failed to create PoSt proofs array for FFI: " r)
          (verify_body prover randomness replicas) s'

    unfoldable pub verify_winning_post :
        List SectorInfo → List GoPostProof → ℕ → List ℕ → Exec (Process E) Bool
    unfolding wrap_end to_fil_public_replica_infos proofs_and_body
    verify_winning_post challenged_sectors proofs prover randomness = do
      replicas ← answer (
          wrap_end "failed to create public replica info array for FFI: "
            (to_fil_public_replica_infos L winning challenged_sectors))
      proofs_and_body proofs prover randomness replicas
