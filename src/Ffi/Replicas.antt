-- ===== src/Ffi/Replicas.antt =====
-- proofs.go: what the functions on proofs of spacetime convert for the Rust library. A CID is the string of
-- its bytes. The packages `commcid`, `address` and `abi` are a parameter.
pub mod Laws
use ffi_demo.Base.{ℕ, zero, suc, String, ◌<>◌, Option, none, some, List, [], ◌∷◌, ◌++◌, map, length}
use ffi_demo.Base.Int.{ℤ}
use ffi_demo.Base.Effect.{
  message, Error, display, owned, Result, ok, err, Unwind, returns, panics, Exec, pure, raise,
  panic, lift, continue, ◌>>=◌, ◌>>◌,
}
use ffi_demo.Util.World.{World}
use ffi_demo.Proofs.Types.{
  Bytes32, RegisteredPostProof, PostProof, PrivateReplicaInfo, PublicReplicaInfo,
}
use ffi_demo.Go.{GoEnd, done, panicked}
use ffi_demo.Ffi.Slices.{as_byte_array32}
use ffi_demo.Ffi.Abi.{
  AbiPostProof, AbiSealProof, to_fil_registered_post_proof, from_fil_registered_post_proof,
}
use ffi_demo.Ffi.Boxes.{Heap, Box, alloc_slice_boxed, destroy}

pub record GoLibs : Type 0 where
  -- `commcid.CIDToReplicaCommitmentV1`
  pub replica_commitment : List ℕ → Result (List ℕ)
  -- `address.NewIDAddress` and the address's `Payload`
  pub id_address_payload : ℕ → Result (List ℕ)
  -- `RegisteredWinningPoStProof` and `RegisteredWindowPoStProof` of a seal proof
  pub winning_post_proof : AbiSealProof → Result AbiPostProof
  pub window_post_proof : AbiSealProof → Result AbiPostProof
  -- the `%v` of a number
  pub show_int : ℤ → String

-- `proof.SectorInfo`
pub record SectorInfo : Type 0 where
  pub seal_proof : AbiSealProof
  pub sector_number : ℕ
  pub sealed_cid : List ℕ

-- The embedded fields of `proof.SectorInfo` but the seal proof, which no function reads, stand
-- first.
pub record PrivateSectorInfo : Type 0 where
  pub sector_number : ℕ
  pub sealed_cid : List ℕ
  pub cache_dir_path : List ℕ
  pub post_proof_type : AbiPostProof
  pub sealed_sector_path : List ℕ

-- `proof.PoStProof`
pub record GoPostProof : Type 0 where
  pub post_proof : AbiPostProof
  pub proof_bytes : List ℕ

-- `cgo.PrivateReplicaInfo` and `cgo.PoStProof`, whose byte strings are boxes
pub record CPrivateReplicaInfo : Type 0 where
  pub registered_proof : RegisteredPostProof
  pub cache_dir_path : Box
  pub comm_r : Bytes32
  pub replica_path : Box
  pub sector_id : ℕ

pub record CPostProof : Type 0 where
  pub registered_proof : RegisteredPostProof
  pub proof : Box

-- What the Rust library reads of them.
abbrev pub replica_view : CPrivateReplicaInfo → PrivateReplicaInfo
replica_view r = record {
  registered_proof = r.registered_proof;
  cache_dir_path = r.cache_dir_path.bytes;
  comm_r = r.comm_r;
  replica_path = r.replica_path.bytes;
  sector_id = r.sector_id;
}

abbrev pub proof_view : CPostProof → PostProof
proof_view p = record { registered_proof = p.registered_proof; proof = p.proof.bytes }

-- A panic of Go code in a function with an error.
unfoldable pub go_end : {A : Type 0} → GoEnd A → Unwind (Result A)
go_end (done a) = returns (ok a)
go_end panicked = panics (owned "index out of range")

-- `errors.Wrap`, and `AsByteArray32` of what the library found
unfoldable pub as_commitment : String → Result (List ℕ) → Unwind (Result Bytes32)
unfolding go_end as_byte_array32
as_commitment text (ok bytes) = go_end (as_byte_array32 bytes)
as_commitment text (err e) = returns (err (message (text <> display e)))

module _ (L : GoLibs) where
  unfoldable pub to_32_byte_comm_r : List ℕ → Unwind (Result Bytes32)
  unfolding as_commitment
  to_32_byte_comm_r sealed_cid =
      as_commitment "failed to transform sealed CID to CommR: " (L.replica_commitment sealed_cid)

  unfoldable pub to_prover_id : ℕ → Unwind (Result Bytes32)
  unfolding as_commitment
  to_prover_id miner_id =
      as_commitment "failed to convert ActorID to prover id ([32]byte) for FFI: "
        (L.id_address_payload miner_id)

-- `NewPrivateReplicaInfo`
unfoldable pub new_private_replica_info :
    RegisteredPostProof → List ℕ → Bytes32 → List ℕ → ℕ → Heap → CPrivateReplicaInfo × Heap
unfolding alloc_slice_boxed
new_private_replica_info pp cache_dir_path comm_r replica_path sector_id h =
    let (cache, h') = alloc_slice_boxed cache_dir_path h in
    let (replica, h'') = alloc_slice_boxed replica_path h' in
    (
      record {
        registered_proof = pp;
        cache_dir_path = cache;
        comm_r = comm_r;
        replica_path = replica;
        sector_id = sector_id;
      },
      h'',
    )

-- `Destroy` of a replica; its nil pointers are not read again
unfoldable pub destroy_replica : CPrivateReplicaInfo → Heap → Heap
unfolding destroy
destroy_replica r h =
    let (cache, h') = destroy r.cache_dir_path h in
    let (replica, h'') = destroy r.replica_path h' in h''

-- `makeCleanerPRI`: the loop over `i < limit`
unfoldable pub make_cleaner_pri : List CPrivateReplicaInfo → ℕ → Heap → Heap
unfolding destroy_replica
make_cleaner_pri src zero h = h
make_cleaner_pri [] (suc limit) h = h
make_cleaner_pri (r ∷ src) (suc limit) h = make_cleaner_pri src limit (destroy_replica r h)

-- The two conversions that a turn of the loop makes before it allocates.
unfoldable pub replica_parts :
    GoLibs → PrivateSectorInfo → Unwind (Result (Bytes32 × RegisteredPostProof))
unfolding to_32_byte_comm_r
replica_parts L info = elim (to_32_byte_comm_r L info.sealed_cid) [
  | panics p ↦ panics p
  | returns (err e) ↦ returns (err e)
  | returns (ok comm_r) ↦ elim (to_fil_registered_post_proof L.show_int info.post_proof_type) [
    | err e ↦ returns (err e)
    | ok pp ↦ returns (ok (comm_r, pp))
  ]
]

-- `toFilPrivateReplicaInfos`, from `out[:idx]` on: the replicas, and the limit of the cleaner that is
-- returned. An error cleans what was made; a panic does not.
unfoldable pub private_replicas_from :
    GoLibs
    → ℕ
    → List CPrivateReplicaInfo
    → List PrivateSectorInfo
    → Exec Heap (List CPrivateReplicaInfo × ℕ)
unfolding replica_parts new_private_replica_info make_cleaner_pri
private_replicas_from L idx out [] h = (returns (ok (out, idx)), h)
private_replicas_from L idx out (info ∷ src) h = elim (replica_parts L info) [
  | panics p ↦ (panics p, h)
  | returns (err e) ↦ (returns (err e), make_cleaner_pri out idx h)
  | returns (ok (comm_r, pp)) ↦
      let (r, h') =
        new_private_replica_info pp info.cache_dir_path comm_r info.sealed_sector_path
          info.sector_number h in
      private_replicas_from L (suc idx) (out ++ (r ∷ [])) src h'
]

unfoldable pub to_fil_private_replica_infos :
    GoLibs → List PrivateSectorInfo → Exec Heap (List CPrivateReplicaInfo × ℕ)
unfolding private_replicas_from
to_fil_private_replica_infos L src = private_replicas_from L 0 [] src

-- `toFilPoStProofs`, from `out[:idx]` on: a box for each proof
unfoldable pub post_proofs_from :
    GoLibs → List CPostProof → List GoPostProof → Exec Heap (List CPostProof)
unfolding alloc_slice_boxed
post_proofs_from L out [] h = (returns (ok out), h)
post_proofs_from L out (p ∷ src) h = elim (to_fil_registered_post_proof L.show_int p.post_proof) [
  | err e ↦ (returns (err e), h)
  | ok pp ↦
      let (b, h') = alloc_slice_boxed p.proof_bytes h in
      post_proofs_from L (out ++ (record { registered_proof = pp; proof = b } ∷ [])) src h'
]

unfoldable pub to_fil_post_proofs : GoLibs → List GoPostProof → Exec Heap (List CPostProof)
unfolding post_proofs_from
to_fil_post_proofs L src = post_proofs_from L [] src

-- `fromFilPoStProofs`
unfoldable pub from_fil_post_proofs : List PostProof → Result (List GoPostProof)
from_fil_post_proofs [] = ok []
from_fil_post_proofs (p ∷ src) = elim (from_fil_registered_post_proof p.registered_proof) [
  | err e ↦ err e
  | ok pp ↦ elim (from_fil_post_proofs src) [
    | err e ↦ err e
    | ok rest ↦ ok (record { post_proof = pp; proof_bytes = p.proof } ∷ rest)
  ]
]

-- The proof type of a public replica: `typ` is "winning" or "window".
pub data PostType : Type 0 where
  winning window : PostType

abi_post_proof_of : GoLibs → PostType → AbiSealProof → Result AbiPostProof
abi_post_proof_of L winning s = L.winning_post_proof s
abi_post_proof_of L window s = L.window_post_proof s

unfoldable pub post_proof_of : GoLibs → PostType → AbiSealProof → Result RegisteredPostProof
unfolding abi_post_proof_of
post_proof_of L typ s = elim (abi_post_proof_of L typ s) [
  | err e ↦ err e
  | ok p ↦ to_fil_registered_post_proof L.show_int p
]

-- `toFilPublicReplicaInfos`
unfoldable pub to_fil_public_replica_infos :
    GoLibs → PostType → List SectorInfo → Unwind (Result (List PublicReplicaInfo))
unfolding to_32_byte_comm_r post_proof_of
to_fil_public_replica_infos L typ [] = returns (ok [])
to_fil_public_replica_infos L typ (s ∷ src) = elim (to_32_byte_comm_r L s.sealed_cid) [
  | panics p ↦ panics p
  | returns (err e) ↦ returns (err e)
  | returns (ok comm_r) ↦ elim (post_proof_of L typ s.seal_proof) [
    | err e ↦ returns (err e)
    | ok pp ↦ elim (to_fil_public_replica_infos L typ src) [
      | panics p ↦ panics p
      | returns (err e) ↦ returns (err e)
      | returns (ok rest) ↦
          let r : PublicReplicaInfo = record {
            registered_proof = pp;
            comm_r = comm_r;
            sector_id = s.sector_number;
          } in
          returns (ok (r ∷ rest))
    ]
  ]
]
