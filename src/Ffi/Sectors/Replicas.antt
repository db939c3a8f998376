-- ===== src/Ffi/Sectors/Replicas.antt =====
-- From the sectors that a user gives to the map that the proofs' API is called with.
use mathlib.Core.Option.{map as option_map}
use mathlib.Core.Path.{subst}
use ffi_demo.Base.{
  ℕ, suc, ◌≡◌, refl, sym, ap, ◌∙◌, Bool-cases, true, false, Option, none, some, inl, inr, List, [],
  ◌∷◌, ◌++◌, map, append_assoc, append-nil, ◌==◌, if◌then◌else◌, arith,
}
use ffi_demo.Base.Effect.{Result, ok, err, Unwind, returns, panics}
use ffi_demo.Proofs.Types.{Bytes32, RegisteredPostProof, PrivateReplicaInfo}
use ffi_demo.Proofs.Helpers.{BtreeMap, ApiPrivateReplicaInfo, get, to_private_replica_info_map}
use ffi_demo.Proofs.Helpers.Laws.{last_with, Sorted, private_view, to_private_replica_info_map-last}
use ffi_demo.Ffi.Boxes.{Heap, alloc_slice_boxed}
use ffi_demo.Ffi.Replicas.{
  GoLibs, PrivateSectorInfo, CPrivateReplicaInfo, replica_view, new_private_replica_info,
  replica_parts, private_replicas_from, to_fil_private_replica_infos,
}
use ffi_demo.Ffi.Sectors.{
  has_seen, first_infos, insert_info, sort_infos, new_sorted_private_sector_info,
}
use ffi_demo.Ffi.Sectors.Laws.{find_info, AllAbove, Ascending, new_sorted_private_sector_info-first}

module _ (L : GoLibs) where
  abbrev parts_view :
      PrivateSectorInfo
      → Unwind (Result (Bytes32 × RegisteredPostProof))
      → Option PrivateReplicaInfo
  parts_view info (returns (ok (comm_r, pp))) = some (record {
    registered_proof = pp;
    cache_dir_path = info.cache_dir_path;
    comm_r = comm_r;
    replica_path = info.sealed_sector_path;
    sector_id = info.sector_number;
  })
  parts_view info _ = none

  parts_view_sector :
      (info : PrivateSectorInfo) (u : Unwind (Result (Bytes32 × RegisteredPostProof)))
      (r : PrivateReplicaInfo)
      → parts_view info u ≡ some r
      → r.sector_id ≡ info.sector_number
  parts_view_sector info (returns (ok (c, pp))) r h = ground arith
  parts_view_sector info (returns (err e)) r h = absurd (cc)
  parts_view_sector info (panics p) r h = absurd (cc)

  -- The replica that Rust is to get for a sector, if its CID and its proof type convert.
  abbrev pub rust_view : PrivateSectorInfo → Option PrivateReplicaInfo
  rust_view info = parts_view info (replica_parts L info)

  abbrev pub AllConvert : List PrivateSectorInfo → Type 0
  AllConvert [] = Unit
  AllConvert (info ∷ infos) =
      ((p : Bytes32 × RegisteredPostProof) × (replica_parts L info ≡ returns (ok p)))
      × AllConvert infos

  AllConvert-append :
      (xs ys : List PrivateSectorInfo) → AllConvert xs → AllConvert ys → AllConvert (xs ++ ys)
  AllConvert-append [] ys h k = k
  AllConvert-append (x ∷ xs) ys h k = (h.0, AllConvert-append xs ys h.1 k)

  first_infos-AllConvert :
      (infos : List PrivateSectorInfo) (seen : List ℕ) (result : List PrivateSectorInfo)
      → AllConvert infos
      → AllConvert result
      → AllConvert (first_infos seen result infos)
  unfolding first_infos
  first_infos-AllConvert [] seen result h k = k
  first_infos-AllConvert (info ∷ infos) seen result h k =
      elim (Bool-cases (has_seen info.sector_number seen)) [
        | inl old ↦ rw (first_infos, old) (first_infos-AllConvert infos seen result h.1 k)
        | inr new ↦
            rw (first_infos, new)
              (first_infos-AllConvert infos _ _ h.1
                (AllConvert-append result (info ∷ []) k (h.0, tt)))
      ]

  insert_info-AllConvert :
      (info : PrivateSectorInfo) (infos : List PrivateSectorInfo)
      → AllConvert (info ∷ infos)
      → AllConvert (insert_info info infos)
  unfolding insert_info
  insert_info-AllConvert info [] h = h
  insert_info-AllConvert info (x ∷ xs) h = ground (arith, insert_info-AllConvert info xs)

  sort_infos-AllConvert :
      (infos : List PrivateSectorInfo) → AllConvert infos → AllConvert (sort_infos infos)
  unfolding sort_infos
  sort_infos-AllConvert [] h = tt
  sort_infos-AllConvert (x ∷ xs) h =
      insert_info-AllConvert x (sort_infos xs) (h.0, sort_infos-AllConvert xs h.1)

  -- The replicas are those of the sectors, in their order.
  abbrev Views : List PrivateSectorInfo → List PrivateReplicaInfo → Type 0
  Views [] [] = Unit
  Views (info ∷ infos) (r ∷ replicas) = (rust_view info ≡ some r) × Views infos replicas
  Views _ _ = ⊥

  -- What the loop adds to `out`.
  private_replicas_from-Views :
      (src : List PrivateSectorInfo) (idx : ℕ) (out : List CPrivateReplicaInfo) (h : Heap)
      → AllConvert src
      → (more : List CPrivateReplicaInfo) × (limit : ℕ) × ((private_replicas_from L idx out src h).0
          ≡ returns (ok (out ++ more, limit)))
        × Views src (map replica_view more)
  unfolding private_replicas_from new_private_replica_info alloc_slice_boxed
  private_replicas_from-Views [] idx out h c =
      ([], idx, ap (λ o. returns (ok (o, idx))) (sym (append-nil out)), tt)
  private_replicas_from-Views (info ∷ src) idx out h (((comm_r, pp), p), c) =
      let (r, h') =
        new_private_replica_info pp info.cache_dir_path comm_r info.sealed_sector_path
          info.sector_number h in
      let (more, limit, e, views) =
        private_replicas_from-Views src (suc idx) (out ++ (r ∷ [])) h' c in
      (
        r ∷ more,
        limit,
        rw (private_replicas_from, p) e
            ∙ ap (λ o. returns (ok (o, limit))) (append_assoc out (r ∷ []) more),
        (ap (parts_view info) p, views),
      )

  find_info-AllAbove :
      (k : ℕ) (infos : List PrivateSectorInfo) → AllAbove k infos → find_info k infos ≡ none
  find_info-AllAbove k [] a = refl
  find_info-AllAbove k (x ∷ xs) a = ground (arith, find_info-AllAbove k xs)

  -- What a map holds for the first information on a sector.
  abbrev pub held :
      Option PrivateSectorInfo → Option ApiPrivateReplicaInfo → Option ApiPrivateReplicaInfo
  held none o = o
  held (some info) o = option_map private_view (rust_view info)

  last_with-Views :
      (k : ℕ) (infos : List PrivateSectorInfo) (replicas : List PrivateReplicaInfo)
      (o : Option ApiPrivateReplicaInfo)
      → Views infos replicas
      → Ascending infos
      → last_with (λ r. r.sector_id) private_view k replicas o ≡ held (find_info k infos) o
  last_with-Views k [] [] o v a = refl
  last_with-Views k [] (r ∷ replicas) o v a = absurd v
  last_with-Views k (info ∷ infos) [] o v a = absurd v
  last_with-Views k (info ∷ infos) (r ∷ replicas) o v a =
      let same = parts_view_sector info (replica_parts L info) r v.0 in
      let rest =
        last_with-Views k infos replicas (if k == r.sector_id then some (private_view r) else o) v.1
          a.1 in
      let made = ap (option_map private_view) v.0 in
      elim (Bool-cases (info.sector_number == k)) [
        | inl here ↦
            let number : info.sector_number ≡ k = ground arith in
            let once = find_info-AllAbove k infos (subst (λ n. AllAbove n infos) number a.0) in
            let test : (k == r.sector_id) ≡ true = ground arith in
            rest ∙ rw (once, test, here) (sym made)
        | inr other ↦
            let test : (k == r.sector_id) ≡ false = ground arith in rest ∙ rw (test, other) refl
      ]

  -- If the CID and the proof type of every sector convert: the replicas that are made for the sorted
  -- sectors become a map in the order of the sectors, which holds for each sector number what the
  -- first information given on it converts to, and nothing for any other number.
  pub Sorted-replicas-first :
      (infos : List PrivateSectorInfo) (h : Heap)
      → AllConvert infos
      → (out : List CPrivateReplicaInfo) × (limit : ℕ) × (m : BtreeMap ApiPrivateReplicaInfo)
        × ((to_fil_private_replica_infos L (new_sorted_private_sector_info infos) h).0
            ≡ returns (ok (out, limit)))
        × (to_private_replica_info_map (map replica_view out) ≡ ok m)
        × Sorted m
        × ((k : ℕ) → get k m ≡ held (find_info k infos) none)
  unfolding new_sorted_private_sector_info to_fil_private_replica_infos
  Sorted-replicas-first infos h c =
      let sorted = new_sorted_private_sector_info infos in
      let all =
        sort_infos-AllConvert (first_infos [] [] infos) (first_infos-AllConvert infos [] [] c tt) in
      let (out, limit, e, views) = private_replicas_from-Views sorted 0 [] h all in
      let (m, made, holds, order) = to_private_replica_info_map-last (map replica_view out) in
      (
        out,
        limit,
        m,
        e,
        made,
        order,
        λ k.
            let (ascending, first) = new_sorted_private_sector_info-first infos k in
            holds k
            ∙ last_with-Views k sorted (map replica_view out) none views ascending
            ∙ ap (λ i. held i none) first,
      )
