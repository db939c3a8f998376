-- ===== src/Proofs/Helpers/Laws.antt =====
-- The replica that a map holds for a sector.
use ffi_demo.Base.{
  ℕ, ◌<◌, ◌≡◌, refl, ap, ◌∙◌, Option, none, some, List, [], ◌∷◌, map, ◌==◌, if◌then◌else◌, arith,
}
use ffi_demo.Base.Effect.{ok}
use ffi_demo.Util.Response.{as_path_buf}
use ffi_demo.Proofs.Types.{PublicReplicaInfo, PrivateReplicaInfo, post_into_api}
use ffi_demo.Proofs.Helpers.{
  BtreeMap, PrivateReplicaInfoTmp, insert, get, collect_into, ApiPrivateReplicaInfo, public_info,
  to_public_replica_info_map, private_tmp, collect_results, private_info, private_map,
  to_private_replica_info_map,
}

-- The last value with the key, or the one from before.
abbrev pub last_with : {A V : Type 0} → (A → ℕ) → (A → V) → ℕ → List A → Option V → Option V
last_with key value k [] o = o
last_with key value k (a ∷ l) o = last_with key value k l (if k == key a then some (value a) else o)

module _ {V : Type 0} where
  -- Every key is above `k`.
  abbrev pub Above : ℕ → BtreeMap V → Type 0
  Above k [] = Unit
  Above k ((j, w) ∷ m) = (k < j) × Above k m

  abbrev pub Sorted : BtreeMap V → Type 0
  Sorted [] = Unit
  Sorted ((j, w) ∷ m) = Above j m × Sorted m

  get-insert :
      (k j : ℕ) (v : V) (m : BtreeMap V)
      → get j (insert k v m) ≡ (if j == k then some v else get j m)
  unfolding get insert
  get-insert k j v [] = refl
  get-insert k j v ((i, w) ∷ m) = ground (arith, get-insert k j v m)

  Above-insert : (i k : ℕ) (v : V) (m : BtreeMap V) → i < k → Above i m → Above i (insert k v m)
  unfolding insert
  Above-insert i k v [] h a = (h, tt)
  Above-insert i k v ((j, w) ∷ m) h a = ground (arith, Above-insert i k v m)

  Above-trans : (i k : ℕ) (m : BtreeMap V) → i < k → Above k m → Above i m
  Above-trans i k [] h a = tt
  Above-trans i k ((j, w) ∷ m) h a = (omega arith, Above-trans i k m h a.1)

  insert-Sorted : (k : ℕ) (v : V) (m : BtreeMap V) → Sorted m → Sorted (insert k v m)
  unfolding insert
  insert-Sorted k v [] s = (tt, tt)
  insert-Sorted k v ((j, w) ∷ m) s =
      ground (arith, insert-Sorted k v m, Above-insert j k v m, Above-trans k j m)

  module _ {A : Type 0} (key : A → ℕ) (value : A → V) where
    collect_into-last :
        (k : ℕ) (l : List A) (m : BtreeMap V)
        → get k (collect_into (map (λ a. (key a, value a)) l) m) ≡ last_with key value k l (get k m)
    unfolding collect_into
    collect_into-last k [] m = refl
    collect_into-last k (a ∷ l) m =
        rw (collect_into-last k l (insert (key a) (value a) m), get-insert (key a) k (value a) m)

    collect_into-Sorted :
        (l : List A) (m : BtreeMap V)
        → Sorted m
        → Sorted (collect_into (map (λ a. (key a, value a)) l) m)
    unfolding collect_into
    collect_into-Sorted [] m s = s
    collect_into-Sorted (a ∷ l) m s =
        collect_into-Sorted l (insert (key a) (value a) m) (insert-Sorted (key a) (value a) m s)

-- The map of public replicas is in the order of the sectors, and holds for each sector the last
-- replica that names it, and nothing for a sector that none names.
pub to_public_replica_info_map-last :
    (replicas : List PublicReplicaInfo) (k : ℕ)
    → (get k (to_public_replica_info_map replicas)
        ≡ last_with (λ r. r.sector_id) public_info k replicas none)
      × Sorted (to_public_replica_info_map replicas)
unfolding to_public_replica_info_map get
to_public_replica_info_map-last replicas k = (
  collect_into-last (λ r. r.sector_id) public_info k replicas [],
  collect_into-Sorted (λ r. r.sector_id) public_info replicas [] tt,
)

-- A private replica as the API has it: on Linux every byte string is a path.
abbrev pub private_view : PrivateReplicaInfo → ApiPrivateReplicaInfo
private_view r = record {
  registered_proof = post_into_api r.registered_proof;
  comm_r = r.comm_r;
  cache_dir_path = r.cache_dir_path;
  replica_path = r.replica_path;
}

abbrev tmp_of : PrivateReplicaInfo → PrivateReplicaInfoTmp
tmp_of r = record {
  registered_proof = r.registered_proof;
  cache_dir_path = r.cache_dir_path;
  comm_r = r.comm_r;
  replica_path = r.replica_path;
  sector_id = r.sector_id;
}

collect_results-tmp :
    (replicas : List PrivateReplicaInfo)
    → collect_results (map private_tmp replicas) ≡ ok (map tmp_of replicas)
unfolding collect_results private_tmp as_path_buf
collect_results-tmp [] = refl
collect_results-tmp (r ∷ replicas) = rw (collect_results-tmp replicas)

pairs_of :
    (replicas : List PrivateReplicaInfo)
    → map {B = ℕ × ApiPrivateReplicaInfo} (λ r. (r.sector_id, private_info r)) (map tmp_of replicas)
      ≡ map {B = ℕ × ApiPrivateReplicaInfo} (λ r. (r.sector_id, private_view r)) replicas
unfolding private_info
pairs_of [] = refl
pairs_of (r ∷ replicas) = ap (◌∷◌ (r.sector_id, private_view r)) (pairs_of replicas)

-- The map of private replicas is always made, is in the order of the sectors, and holds for each
-- sector the last replica that names it, and nothing for a sector that none names.
pub to_private_replica_info_map-last :
    (replicas : List PrivateReplicaInfo)
    → (m : BtreeMap ApiPrivateReplicaInfo) × (to_private_replica_info_map replicas ≡ ok m)
      × ((k : ℕ) → get k m ≡ last_with (λ r. r.sector_id) private_view k replicas none)
      × Sorted m
unfolding to_private_replica_info_map private_map get
to_private_replica_info_map-last replicas = (
  collect_into (map (λ r. (r.sector_id, private_view r)) replicas) [],
  ap private_map (collect_results-tmp replicas)
      ∙ ap (λ l. ok (collect_into l [])) (pairs_of replicas),
  (λ k. collect_into-last (λ r. r.sector_id) private_view k replicas []),
  collect_into-Sorted (λ r. r.sector_id) private_view replicas [] tt,
)

-- Both maps of replicas are in the order of the sectors, and hold for each sector the last replica
-- that names it, and nothing for a sector that none names; the map of private replicas is always
-- made.
pub replica_maps-last :
    (publics : List PublicReplicaInfo) (privates : List PrivateReplicaInfo) (k : ℕ)
    → (get k (to_public_replica_info_map publics)
        ≡ last_with (λ r. r.sector_id) public_info k publics none)
      × Sorted (to_public_replica_info_map publics)
      × ((m : BtreeMap ApiPrivateReplicaInfo) × (to_private_replica_info_map privates ≡ ok m)
          × ((j : ℕ) → get j m ≡ last_with (λ r. r.sector_id) private_view j privates none)
          × Sorted m)
replica_maps-last publics privates k =
    let (found, sorted) = to_public_replica_info_map-last publics k in
    (found, sorted, to_private_replica_info_map-last privates)
