-- ===== src/Fvm/Blockstore/Batches/Bounds.antt =====
-- The batches hold every block once and in order, and none of them is too large.
use ffi_demo.Base.{
  ℕ, ◌≤◌, ◌<◌, ◌≡◌, refl, ap, ◌∙◌, ◌⊎◌, false, List, [], ◌∷◌, ◌++◌, append_assoc, concat, length,
  length-append, Bool-cases, inl, inr, arith,
}
use ffi_demo.Fvm.Cgo.{Std, CgoApi}
use ffi_demo.Fvm.Blockstore.{CidApi}
use ffi_demo.Fvm.Blockstore.Cgo.{put_many_keyed, max_buf_size, max_block_batch, est_max_cid_len}
use ffi_demo.Fvm.Blockstore.Batches.{
  send_all, Blocks, entry, encode, starts_new, nonempty, batches, encode-snoc,
}
use ffi_demo.Fvm.Blockstore.Batches.Refines.{WritesCids, put_many_keyed-send_all}

module _ (C : CidApi) where
  -- At most 1024 blocks, and at most 4 MiB unless it is one block.
  pub record Fits (batch : Blocks C) : Type 0 where
    pub not_empty : 0 < length batch
    pub few : length batch ≤ max_block_batch
    pub small : (length (encode C batch) ≤ max_buf_size) ⊎ (length batch ≡ 1)

  abbrev pub AllFit : List (Blocks C) → Type 0
  AllFit [] = Unit
  AllFit (b ∷ bs) = Fits b × AllFit bs

  -- What has begun fits, or nothing has begun.
  record Begun (current : Blocks C) : Type 0 where
    few : length current ≤ max_block_batch
    small : (length (encode C current) ≤ max_buf_size) ⊎ (length current ≡ 1)

  nonempty-AllFit :
      (current : Blocks C) (rest : List (Blocks C))
      → Begun current
      → AllFit rest
      → AllFit (nonempty C current rest)
  nonempty-AllFit [] rest b f = f
  nonempty-AllFit (x ∷ xs) rest b f =
      (record { not_empty = omega arith; few = b.few; small = b.small }, f)

  concat-nonempty :
      (current : Blocks C) (rest : List (Blocks C))
      → concat (nonempty C current rest) ≡ current ++ concat rest
  concat-nonempty [] rest = refl
  concat-nonempty (x ∷ xs) rest = refl

  single-Begun : (x : C.Cid × List ℕ) → Begun (x ∷ [])
  single-Begun x = record { few = omega arith; small = inr refl }

  snoc-Begun :
      (current : Blocks C) (k : C.Cid) (block : List ℕ)
      → length (C.to_bytes k) ≤ est_max_cid_len
      → starts_new C current (k, block) ≡ false
      → Begun (current ++ ((k, block) ∷ []))
  snoc-Begun current k block short room = record {
    few = ground (arith, length-append current ((k, block) ∷ []));
    small = inl (
        rw (encode-snoc C current (k, block)) (
          ground (
            arith,
            length-append (encode C current) (entry C (k, block)),
            length-append (C.to_bytes k) block,
          )));
  }

  concat-batches :
      (current blocks : Blocks C) → concat (batches C current blocks) ≡ current ++ blocks
  unfolding batches
  concat-batches current [] = concat-nonempty current []
  concat-batches current (x ∷ xs) = elim (Bool-cases (starts_new C current x)) [
    | inl full ↦
        rw full (concat-nonempty current _ ∙ ap (λ l. current ++ l) (concat-batches (x ∷ []) xs))
    | inr room ↦
        rw room (concat-batches (current ++ (x ∷ [])) xs ∙ append_assoc current (x ∷ []) xs)
  ]

  batches-AllFit :
      ((k : C.Cid) → length (C.to_bytes k) ≤ est_max_cid_len)
      → (current blocks : Blocks C) → Begun current
      → AllFit (batches C current blocks)
  unfolding batches
  batches-AllFit short current [] b = nonempty-AllFit current [] b tt
  batches-AllFit short current (x ∷ xs) b = elim (Bool-cases (starts_new C current x)) [
    | inl full ↦
        rw full (nonempty-AllFit current _ b (batches-AllFit short (x ∷ []) xs (single-Begun x)))
    | inr room ↦ rw room (
        batches-AllFit short (current ++ (x ∷ [])) xs (snoc-Begun current x.0 x.1 (short x.0) room))
  ]

batches_bounds :
    (C : CidApi) (blocks : Blocks C)
    → ((k : C.Cid) → length (C.to_bytes k) ≤ est_max_cid_len)
    → (concat (batches C [] blocks) ≡ blocks) × AllFit C (batches C [] blocks)
batches_bounds C blocks short = (
  concat-batches C [] blocks,
  batches-AllFit C short [] blocks (record { few = omega arith; small = inl (omega arith) }),
)

-- If the crate `cid` writes non-empty CIDs of at most the 100 bytes that the code estimates,
-- `put_many_keyed` sends batches that, joined, are the blocks in their order, one call each up to
-- the first that does not succeed; every batch has at least one and at most 1024 blocks, and at
-- most 4 MiB unless it is a single block.
pub put_many_keyed-AllFit :
    (F : Std) (C : CidApi) {E : Type 0} (go : CgoApi E) (handle : ℕ)
    → WritesCids C
    → ((k : C.Cid) → length (C.to_bytes k) ≤ est_max_cid_len)
    → (blocks : Blocks C) (e : E)
    → (bs : List (Blocks C)) × (put_many_keyed F C go handle blocks e ≡ send_all F C go handle bs e)
      × (concat bs ≡ blocks)
      × AllFit C bs
put_many_keyed-AllFit F C go handle w short blocks e =
    let (joined, fit) = batches_bounds C blocks short in
    (batches C [] blocks, put_many_keyed-send_all F C go handle w blocks e, joined, fit)
