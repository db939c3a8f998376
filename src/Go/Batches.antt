-- ===== src/Go/Batches.antt =====
-- Batches of blocks across the bridge, from rust/src/fvm/blockstore/cgo.rs to the user's store.
use mathlib.Core.Path.{subst}
use ffi_demo.Base.{
  ℕ, ◌≤◌, ◌≡◌, refl, sym, ap, ◌∙◌, none, some, List, [], ◌∷◌, ◌++◌, Option, map, concat, length,
  length-map, take, take-length, take-length-append, drop-length-append, arith,
}
use ffi_demo.Base.Int.{as_i32, as_i32_small}
use ffi_demo.Fvm.Cgo.{Std}
use ffi_demo.Fvm.Blockstore.{CidApi}
use ffi_demo.Fvm.Blockstore.Cgo.{
  max_block_batch, est_max_cid_len, write_batch, put_code, put_many_keyed,
}
use ffi_demo.Fvm.Blockstore.Cgo.Codes.{ending}
use ffi_demo.Fvm.Blockstore.Batches.{Blocks, entry, encode, buffered, send_all}
use ffi_demo.Fvm.Blockstore.Batches.Refines.{WritesCids}
use ffi_demo.Fvm.Blockstore.Batches.Bounds.{AllFit, put_many_keyed-AllFit}
use ffi_demo.Go.{GoEnd, done, GoError, Externs, GoState, lookup_externs}
use ffi_demo.Go.Store.{
  GoApi, max_len, read_block, read_blocks, batch_blocks, put_end, put_blocks,
  cgo_blockstore_put_many,
}
use ffi_demo.Go.Chain.{go_side}
use ffi_demo.Go.Refines.{put_ending}

-- What the two CID libraries document: the Go side reads from the front the bytes that the Rust side
-- writes, whatever follows.
pub record ReadsCids (C : CidApi) {Address : Type 0} (api : GoApi Address) : Type 0 where
  pub reads :
      (k : C.Cid) (rest : List ℕ)
      → api.cid_from_bytes (C.to_bytes k ++ rest) ≡ some (length (C.to_bytes k), C.to_bytes k)

module _ (C : CidApi) where
  -- The blocks as Go values.
  abbrev pub go_block : C.Cid × List ℕ → List ℕ × List ℕ
  go_block (k, block) = (C.to_bytes k, block)

  -- A CID and its block are within the length that the Go side takes.
  abbrev pub AllShort : Blocks C → Type 0
  AllShort [] = Unit
  AllShort (b ∷ blocks) = (length (entry C b) ≤ max_len) × AllShort blocks

  AllShort-append : (xs ys : Blocks C) → AllShort (xs ++ ys) → AllShort xs × AllShort ys
  AllShort-append [] ys h = (tt, h)
  AllShort-append (x ∷ xs) ys h = let (l, r) = AllShort-append xs ys h.1 in ((h.0, l), r)

  -- Every batch has only such blocks.
  abbrev pub AllBatchesShort : List (Blocks C) → Type 0
  AllBatchesShort [] = Unit
  AllBatchesShort (b ∷ bs) = AllShort b × AllBatchesShort bs

  AllShort-concat : (bs : List (Blocks C)) → AllShort (concat bs) → AllBatchesShort bs
  AllShort-concat [] h = tt
  AllShort-concat (b ∷ bs) h =
      let (here, later) = AllShort-append b (concat bs) h in (here, AllShort-concat bs later)

module _ (C : CidApi) {Address : Type 0} (api : GoApi Address) (r : ReadsCids C api) where
  read_block-entry :
      (b : C.Cid × List ℕ) (rest : List ℕ)
      → length (entry C b) ≤ max_len
      → read_block api (length (entry C b)) (entry C b ++ rest) ≡ some (go_block C b)
  unfolding read_block
  read_block-entry (k, block) rest h = ground (
    arith,
    take-length-append (entry C (k, block)) rest,
    r.reads k block,
    drop-length-append (C.to_bytes k) block,
  )

  -- The loop of the Go side reads back the batch that the Rust side has encoded.
  read_blocks-encode :
      (batch : Blocks C)
      → AllShort C batch
      → read_blocks api (map (λ x. as_i32 (length (entry C x))) batch) (encode C batch)
        ≡ done (some (map (go_block C) batch))
  unfolding read_blocks
  read_blocks-encode [] h = refl
  read_blocks-encode (b ∷ batch) h = rw (
    as_i32_small (length (entry C b)) (omega (arith, h.0)),
    read_block-entry b (encode C batch) h.0,
    drop-length-append (entry C b) (encode C batch),
    read_blocks-encode batch h.1,
  )

  batch_blocks-buffered :
      (batch : Blocks C)
      → AllShort C batch
      → length batch ≤ max_block_batch
      → batch_blocks api
          (map (λ x. as_i32 (length (entry C x))) batch)
          (as_i32 (length (map (λ x. as_i32 (length (entry C x))) batch)))
          (encode C batch)
        ≡ done (some (map (go_block C) batch))
  unfolding batch_blocks
  batch_blocks-buffered batch short few =
      let lengths = map (λ x. as_i32 (length (entry C x))) batch in
      let count = length-map (λ x. as_i32 (length (entry C x))) batch in
      let small = as_i32_small (length batch) (omega arith) in
      let whole = ap (λ n. take n lengths) (sym count) ∙ take-length lengths in
      rw (count, small, whole, read_blocks-encode batch short) (ground arith)

-- The store of the user, batch after batch up to the first that it does not take.
module _ (C : CidApi) {Address U : Type 0} (x : Externs Address U) where
  store_next :
      GoEnd (Option GoError) → (U → GoEnd (Option GoError) × U) → U → GoEnd (Option GoError) × U
  store_next (done none) rest u = rest u
  store_next r rest u = (r, u)

  pub store_batches : List (Blocks C) → U → GoEnd (Option GoError) × U
  unfolding store_next
  store_batches [] u = (done none, u)
  store_batches (b ∷ bs) u =
      let (r, u') = x.put_many (map (go_block C) b) u in store_next r (store_batches bs) u'

module _ (F : Std) (C : CidApi) {Address U : Type 0} (api : GoApi Address) (r : ReadsCids C api)
    (handle : ℕ) (x : Externs Address U) where
  put_many-batch :
      (batch : Blocks C) (s : GoState Address U)
      → lookup_externs handle s ≡ some x
      → AllShort C batch
      → length batch ≤ max_block_batch
      → let b = buffered F C (go_side {U = U} api) handle batch in
        let run = x.put_many (map (go_block C) batch) s.user in
        cgo_blockstore_put_many api handle b.lengths (as_i32 (length b.lengths)) b.buf s
        ≡ (put_end run.0, record s { user = run.1 })
  unfolding cgo_blockstore_put_many put_blocks
  put_many-batch batch s registered short few =
      ground (arith, batch_blocks-buffered C api r batch short few)

  -- One batch across the bridge is one `PutMany` of its blocks.
  write_batch-put_many :
      (batch : Blocks C) (s : GoState Address U)
      → lookup_externs handle s ≡ some x
      → AllShort C batch
      → length batch ≤ max_block_batch
      → let run = x.put_many (map (go_block C) batch) s.user in
        write_batch F C (go_side api) handle (buffered F C (go_side api) handle batch) s
        ≡ put_code F "put_many" handle (put_end run.0) (record s { user = run.1 })
  unfolding write_batch
  write_batch-put_many batch s registered short few =
      ap (λ o. put_code F "put_many" handle o.0 o.1) (put_many-batch batch s registered short few)

  send_all-store_batches :
      (bs : List (Blocks C)) (s : GoState Address U)
      → lookup_externs handle s ≡ some x
      → AllBatchesShort C bs
      → AllFit C bs
      → let sent = send_all F C (go_side api) handle bs s in
        let stored = store_batches C x bs s.user in
        (ending sent.0 ≡ put_ending stored.0) × (sent.1 ≡ record s { user = stored.1 })
  unfolding send_all store_batches put_end put_code lookup_externs
  send_all-store_batches [] s registered short fit = (refl, refl)
  send_all-store_batches (b ∷ bs) s registered short fit = ground (
    arith,
    write_batch-put_many b s registered short.0 fit.0.few,
    send_all-store_batches bs (record s { user = (x.put_many (map (go_block C) b) s.user).1 })
        registered short.1 fit.1,
  )

-- `put_many_keyed` on a registered store, across the bridge: the store gets the blocks in their order,
-- in batches that are neither empty nor too large, until the first batch that it does not take; the
-- outcome is that batch's, and the registry stays. The CID libraries agree on bytes of length 1 to 100,
-- and no CID with its block has more than 2^30 bytes.
pub put_many_keyed-store_batches :
    (F : Std) (C : CidApi) {Address U : Type 0} (api : GoApi Address) (handle : ℕ)
    (x : Externs Address U) (blocks : Blocks C) (s : GoState Address U)
    → WritesCids C
    → ((k : C.Cid) → length (C.to_bytes k) ≤ est_max_cid_len)
    → ReadsCids C api
    → lookup_externs handle s ≡ some x
    → AllShort C blocks
    → let sent = put_many_keyed F C (go_side api) handle blocks s in
      (bs : List (Blocks C)) × (concat bs ≡ blocks)
      × AllFit C bs
      × (ending sent.0 ≡ put_ending (store_batches C x bs s.user).0)
      × (sent.1 ≡ record s { user = (store_batches C x bs s.user).1 })
put_many_keyed-store_batches F C api handle x blocks s w small r registered short =
    let (bs, sent, joined, fit) = put_many_keyed-AllFit F C (go_side api) handle w small blocks s in
    let each = AllShort-concat C bs (subst (AllShort C) (sym joined) short) in
    let (e, state) = send_all-store_batches F C api r handle x bs s registered each fit in
    (bs, joined, fit, ap (λ o. ending o.0) sent ∙ e, ap (λ o. o.1) sent ∙ state)
