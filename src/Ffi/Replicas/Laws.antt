-- ===== src/Ffi/Replicas/Laws.antt =====
-- The boxes that `toFilPrivateReplicaInfos` allocates, and its cleaner.
use mathlib.Core.Path.{subst}
use ffi_demo.Base.{
  ℕ, suc, ◌≤◌, ◌≡◌, refl, sym, ap, ◌∙◌, ◌⊎◌, inl, inr, String, some, List, [], ◌∷◌, ◌++◌, length,
  length-append, arith,
}
use ffi_demo.Base.Effect.{Error, Result, ok, err, Unwind, returns, Result-cases}
use ffi_demo.Proofs.Types.{Bytes32, RegisteredPostProof}
use ffi_demo.Ffi.Slices.Laws.{as_byte_array32_lem}
use ffi_demo.Ffi.Abi.{to_fil_registered_post_proof}
use ffi_demo.Ffi.Boxes.{
  Heap, alloc_slice_boxed, free, destroy, Region, Fresh, Region-start, alloc-Region, free-Region,
}
use ffi_demo.Ffi.Replicas.{
  GoLibs, PrivateSectorInfo, CPrivateReplicaInfo, go_end, as_commitment, to_32_byte_comm_r,
  new_private_replica_info, destroy_replica, make_cleaner_pri, replica_parts, private_replicas_from,
  to_fil_private_replica_infos,
}

-- What `commcid` documents: a commitment has 32 bytes.
abbrev pub CommitmentsOf32 : GoLibs → Type 0
CommitmentsOf32 L = (cid bytes : List ℕ) → L.replica_commitment cid ≡ ok bytes → length bytes ≡ 32

-- The boxes are as they were before.
abbrev pub Restored : Heap → Heap → Type 0
Restored base h = (h.bad_frees ≡ base.bad_frees) × ((i : ℕ) → h.live i ≡ base.live i)

-- The replicas have the boxes from `a` on and before `b`, in their order.
abbrev pub Owned : List CPrivateReplicaInfo → ℕ → ℕ → Type 0
Owned [] a b = a ≡ b
Owned (r ∷ out) a b =
    (r.cache_dir_path.ptr ≡ some a)
    × (r.replica_path.ptr ≡ some (suc a))
    × Owned out (suc (suc a)) b

Owned-bounds : (out : List CPrivateReplicaInfo) (a b : ℕ) → Owned out a b → a ≤ b
Owned-bounds [] a b o = omega arith
Owned-bounds (r ∷ out) a b (c, p, o) = omega (arith, Owned-bounds out (suc (suc a)) b o)

Owned-append :
    (out : List CPrivateReplicaInfo) (r : CPrivateReplicaInfo) (a b : ℕ)
    → Owned out a b
    → r.cache_dir_path.ptr ≡ some b
    → r.replica_path.ptr ≡ some (suc b)
    → Owned (out ++ (r ∷ [])) a (suc (suc b))
Owned-append [] r a b o c p =
    (c ∙ ap some (sym o), p ∙ ap (λ n. some (suc n)) (sym o), ap (λ n. suc (suc n)) o)
Owned-append (r' ∷ out) r a b (c', p', o) c p = (c', p', Owned-append out r (suc (suc a)) b o c p)

Region-Restored :
    (base : Heap) (b : ℕ) (h : Heap) → Fresh base → Region base b b h → Restored base h
Region-Restored base b h fresh (next, bad, lives) = (bad, λ i. ground (arith, fresh i, lives i))

module _ (base : Heap) where
  destroy_replica-Region :
      (r : CPrivateReplicaInfo) (a b : ℕ) (h : Heap)
      → base.next_box ≤ a
      → suc (suc a) ≤ b
      → r.cache_dir_path.ptr ≡ some a
      → r.replica_path.ptr ≡ some (suc a)
      → Region base a b h
      → Region base (suc (suc a)) b (destroy_replica r h)
  unfolding destroy_replica destroy
  destroy_replica-Region r a b h l m c p reg =
      rw (c, p)
        (free-Region base (suc a) b (free a h) (omega arith) (omega arith)
          (free-Region base a b h l (omega arith) reg))

  -- The cleaner frees each box once.
  cleaner-Region :
      (out : List CPrivateReplicaInfo) (a b : ℕ) (h : Heap)
      → base.next_box ≤ a
      → Owned out a b
      → Region base a b h
      → Region base b b (make_cleaner_pri out (length out) h)
  unfolding make_cleaner_pri
  cleaner-Region [] a b h l o reg = subst (λ c. Region base c b h) o reg
  cleaner-Region (r ∷ out) a b h l (c, p, o) reg =
      cleaner-Region out (suc (suc a)) b (destroy_replica r h) (omega arith) o
        (destroy_replica-Region r a b h l (Owned-bounds out _ b o) c p reg)

  -- A new replica has the next two boxes.
  new_replica-Region :
      (pp : RegisteredPostProof) (cache : List ℕ) (comm_r : Bytes32) (path : List ℕ) (id a b : ℕ)
      (h : Heap)
      → base.next_box ≤ a
      → a ≤ b
      → Region base a b h
      → let (r, h') = new_private_replica_info pp cache comm_r path id h in
        (r.cache_dir_path.ptr ≡ some b)
        × (r.replica_path.ptr ≡ some (suc b))
        × Region base a (suc (suc b)) h'
  unfolding new_private_replica_info alloc_slice_boxed
  new_replica-Region pp cache comm_r path id a b h l m reg = (
    ap some reg.0,
    ap (λ n. some (suc n)) reg.0,
    alloc-Region base a (suc b) path (alloc_slice_boxed cache h).1 l (omega arith)
        (alloc-Region base a b cache h l m reg),
  )

as_commitment_lem :
    (text : String) (r : Result (List ℕ))
    → ((bytes : List ℕ) → r ≡ ok bytes → length bytes ≡ 32)
    → ((c : Bytes32) × (as_commitment text r ≡ returns (ok c)))
      ⊎ ((e : Error) × (as_commitment text r ≡ returns (err e)))
unfolding as_commitment go_end
as_commitment_lem text (err e) h = inr (_, refl)
as_commitment_lem text (ok bytes) h =
    let l = h bytes refl in
    let fits = (as_byte_array32_lem bytes).0 (omega arith) in inl (_, ap go_end fits)

module _ (L : GoLibs) (lengths : CommitmentsOf32 L) where
  replica_parts_lem :
      (info : PrivateSectorInfo)
      → ((p : Bytes32 × RegisteredPostProof) × (replica_parts L info ≡ returns (ok p)))
        ⊎ ((e : Error) × (replica_parts L info ≡ returns (err e)))
  unfolding replica_parts to_32_byte_comm_r
  replica_parts_lem info =
      elim (as_commitment_lem "failed to transform sealed CID to CommR: "
        (L.replica_commitment info.sealed_cid) (lengths info.sealed_cid)) [
          | inr (e, h) ↦ inr (e, rw (replica_parts, h) refl)
          | inl (c, h) ↦
              elim (Result-cases (to_fil_registered_post_proof L.show_int info.post_proof_type)) [
                | inl (pp, k) ↦ inl ((c, pp), rw (replica_parts, h, k) refl)
                | inr (e, k) ↦ inr (e, rw (replica_parts, h, k) refl)
              ]
        ]

  -- The replicas with their boxes, or an error that has freed them all.
  abbrev pub MadeOrRestored : Heap → Unwind (Result (List CPrivateReplicaInfo × ℕ)) × Heap → Type 0
  MadeOrRestored base (r, h) =
      ((out : List CPrivateReplicaInfo) × (b : ℕ) × (r ≡ returns (ok (out, length out)))
        × Owned out base.next_box b
        × Region base base.next_box b h)
      ⊎ ((e : Error) × (r ≡ returns (err e)) × Restored base h)

  private_replicas_from_lem :
      (base : Heap) (src : List PrivateSectorInfo) (idx : ℕ) (out : List CPrivateReplicaInfo)
      (b : ℕ) (h : Heap)
      → Fresh base
      → idx ≡ length out
      → Owned out base.next_box b
      → Region base base.next_box b h
      → MadeOrRestored base (private_replicas_from L idx out src h)
  unfolding private_replicas_from
  private_replicas_from_lem base [] idx out b h fresh n o reg =
      inl (out, b, ap (λ k. returns (ok (out, k))) n, o, reg)
  private_replicas_from_lem base (info ∷ src) idx out b h fresh n o reg =
      let l = Owned-bounds out base.next_box b o in
      elim (replica_parts_lem info) [
        | inr (e, p) ↦
            rw (private_replicas_from, p, n)
              (inr (
                e,
                refl,
                Region-Restored base b _ fresh
                    (cleaner-Region base out base.next_box b h (omega arith) o reg),
              ))
        | inl ((c, pp), p) ↦
            let (r, h') =
              new_private_replica_info pp info.cache_dir_path c info.sealed_sector_path
                info.sector_number h in
            let (ca, pa, reg') =
              new_replica-Region base pp info.cache_dir_path c info.sealed_sector_path
                info.sector_number base.next_box b h (omega arith) l reg in
            let longer : suc idx ≡ length (out ++ (r ∷ [])) =
              omega (arith, length-append out (r ∷ [])) in
            rw (private_replicas_from, p)
              (private_replicas_from_lem base src (suc idx) (out ++ (r ∷ [])) (suc (suc b)) h' fresh
                longer (Owned-append out r base.next_box b o ca pa) reg')
      ]

  -- `toFilPrivateReplicaInfos` on any state of the boxes.
  pub to_fil_private_replica_infos_lem :
      (src : List PrivateSectorInfo) (h : Heap)
      → Fresh h
      → MadeOrRestored h (to_fil_private_replica_infos L src h)
  unfolding to_fil_private_replica_infos
  to_fil_private_replica_infos_lem src h fresh =
      private_replicas_from_lem h src 0 [] h.next_box h fresh refl refl (Region-start h fresh)

  -- What the cleaner that is returned leaves.
  pub cleaner-Restored :
      (base : Heap) (out : List CPrivateReplicaInfo) (b : ℕ) (h : Heap)
      → Fresh base
      → Owned out base.next_box b
      → Region base base.next_box b h
      → Restored base (make_cleaner_pri out (length out) h)
  cleaner-Restored base out b h fresh o reg =
      Region-Restored base b _ fresh (cleaner-Region base out base.next_box b h (omega arith) o reg)
