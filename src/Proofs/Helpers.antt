-- ===== src/Proofs/Helpers.antt =====
-- rust/src/proofs/helpers.rs: the replicas of a call, collected into a `BTreeMap`.
pub mod Laws
use ffi_demo.Base.{ℕ, Bool, Option, none, some, List, [], ◌∷◌, map, ltb, ◌==◌, if◌then◌else◌}
use ffi_demo.Base.Map.{Map}
use ffi_demo.Base.Effect.{Result, ok, err}
use ffi_demo.Util.Response.{PathBuf, as_path_buf}
use ffi_demo.Proofs.Upstream.{ApiRegisteredPostProof}
use ffi_demo.Proofs.Types.{
  Bytes32, RegisteredPostProof, PublicReplicaInfo, PrivateReplicaInfo, post_into_api,
}

-- `BTreeMap` with numbers as keys: the pairs in the order of their keys.
abbrev pub BtreeMap : Type 0 → Type 0
BtreeMap V = Map ℕ V

module _ {V : Type 0} where
  unfoldable pub insert : ℕ → V → BtreeMap V → BtreeMap V
  insert k v [] = (k, v) ∷ []
  insert k v ((j, w) ∷ m) =
      let rest = insert k v m in
      if ltb k j then (k, v) ∷ (j, w) ∷ m else if k == j then (k, v) ∷ m else (j, w) ∷ rest

  unfoldable pub get : ℕ → BtreeMap V → Option V
  get k [] = none
  get k ((j, w) ∷ m) = if k == j then some w else get k m

  -- `collect` into a map, which inserts the pairs one after the other, also from a parallel iterator
  unfoldable pub collect_into : List (ℕ × V) → BtreeMap V → BtreeMap V
  collect_into [] m = m
  collect_into ((k, v) ∷ l) m = collect_into l (insert k v m)

-- `api::PublicReplicaInfo`
pub record ApiPublicReplicaInfo : Type 0 where
  pub registered_proof : ApiRegisteredPostProof
  pub comm_r : Bytes32

-- `api::PrivateReplicaInfo`
pub record ApiPrivateReplicaInfo : Type 0 where
  pub registered_proof : ApiRegisteredPostProof
  pub comm_r : Bytes32
  pub cache_dir_path : PathBuf
  pub replica_path : PathBuf

unfoldable pub public_info : PublicReplicaInfo → ApiPublicReplicaInfo
public_info r = record { registered_proof = post_into_api r.registered_proof; comm_r = r.comm_r }

unfoldable pub to_public_replica_info_map : List PublicReplicaInfo → BtreeMap ApiPublicReplicaInfo
unfolding public_info
to_public_replica_info_map replicas =
    collect_into (map (λ r. (r.sector_id, public_info r)) replicas) []

pub record PrivateReplicaInfoTmp : Type 0 where
  pub registered_proof : RegisteredPostProof
  pub cache_dir_path : PathBuf
  pub comm_r : Bytes32
  pub replica_path : PathBuf
  pub sector_id : ℕ

-- The first closure, with the `?` on both paths.
unfoldable pub private_tmp : PrivateReplicaInfo → Result PrivateReplicaInfoTmp
private_tmp r = elim (as_path_buf r.cache_dir_path) [
  | err e ↦ err e
  | ok cache_dir_path ↦ elim (as_path_buf r.replica_path) [
    | err e ↦ err e
    | ok replica_path ↦ ok (record {
      registered_proof = r.registered_proof;
      cache_dir_path = cache_dir_path;
      comm_r = r.comm_r;
      replica_path = replica_path;
      sector_id = r.sector_id;
    })
  ]
]

-- `.collect::<Result<_>>()`
unfoldable pub collect_results : {A : Type 0} → List (Result A) → Result (List A)
collect_results [] = ok []
collect_results (err e ∷ l) = err e
collect_results (ok a ∷ l) = elim (collect_results l) [ ok rest ↦ ok (a ∷ rest) | err e ↦ err e ]

unfoldable pub private_info : PrivateReplicaInfoTmp → ApiPrivateReplicaInfo
private_info r = record {
  registered_proof = post_into_api r.registered_proof;
  comm_r = r.comm_r;
  cache_dir_path = r.cache_dir_path;
  replica_path = r.replica_path;
}

-- The `?` on the first pass, and the second.
unfoldable pub private_map :
    Result (List PrivateReplicaInfoTmp) → Result (BtreeMap ApiPrivateReplicaInfo)
unfolding private_info
private_map (ok l) = ok (collect_into (map (λ r. (r.sector_id, private_info r)) l) [])
private_map (err e) = err e

unfoldable pub to_private_replica_info_map :
    List PrivateReplicaInfo → Result (BtreeMap ApiPrivateReplicaInfo)
unfolding private_map collect_results private_tmp
to_private_replica_info_map replicas = private_map (collect_results (map private_tmp replicas))
