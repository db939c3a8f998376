-- ===== src/Fvm/Blockstore/Batches.antt =====
-- `put_many_keyed` against a description that has no buffers: the blocks are cut into batches, and
-- each batch is one call of the Go side.
pub mod Refines
pub mod Bounds
use mathlib.Core.List.{map-append}
use ffi_demo.Base.{
  ℕ, ◌+◌, ◌<◌, ◌≡◌, refl, sym, ap, ◌∙◌, Bool, true, false, ◌||◌, List, [], ◌∷◌, ◌++◌, map,
  append-nil, append_assoc, concat, concat-append, length, length-append, length-map, leb, ltb,
  Bool-cases, inl, inr, if◌then◌else◌, arith,
}
use ffi_demo.Base.Int.{ℤ, as_i32}
use ffi_demo.Base.Effect.{Result, ok, Exec, pure, ◌>>=◌, ◌>>◌}
use ffi_demo.Base.Effect.Laws.{bind_assoc}
use ffi_demo.Fvm.Cgo.{Std, CgoApi}
use ffi_demo.Fvm.Blockstore.{CidApi}
use ffi_demo.Fvm.Blockstore.Cgo.{
  max_buf_size, max_block_batch, est_max_cid_len, Buffered, no_blocks, write_batch, flush_buffered,
  is_full, push_block, buffer_block, put_many_loop, put_many_keyed,
}

module _ (C : CidApi) where
  abbrev pub Blocks : Type 0
  Blocks = List (C.Cid × List ℕ)

  -- A block as the Go side reads it: its CID, then its bytes.
  abbrev pub entry : C.Cid × List ℕ → List ℕ
  entry (k, block) = C.to_bytes k ++ block

  abbrev pub encode : Blocks → List ℕ
  encode blocks = concat (map entry blocks)

  -- Does the next block start a new batch?
  abbrev pub starts_new : Blocks → C.Cid × List ℕ → Bool
  starts_new current (_, block) =
      leb max_block_batch (length current)
      || ltb max_buf_size (est_max_cid_len + length block + length (encode current))

  abbrev pub nonempty : Blocks → List Blocks → List Blocks
  nonempty [] rest = rest
  nonempty (x ∷ xs) rest = (x ∷ xs) ∷ rest

  -- The batches of the blocks, after a batch that has begun.
  unfoldable pub batches : Blocks → Blocks → List Blocks
  batches current [] = nonempty current []
  batches current (x ∷ xs) =
      let fresh = nonempty current (batches (x ∷ []) xs) in
      let more = batches (current ++ (x ∷ [])) xs in if starts_new current x then fresh else more

  pub encode-snoc :
      (current : Blocks) (x : C.Cid × List ℕ)
      → encode (current ++ (x ∷ [])) ≡ encode current ++ entry x
  encode-snoc current x = simp (map-append, concat-append, append-nil)

module _ (F : Std) (C : CidApi) {E : Type 0} (go : CgoApi E) (handle : ℕ) where
  abbrev pub buffered : Blocks C → Buffered F C go handle
  buffered blocks = record {
    lengths = map (λ x. as_i32 (length (entry C x))) blocks;
    buf = encode C blocks;
  }

  -- One call for each batch, up to the first that does not succeed.
  unfoldable pub send_all : List (Blocks C) → Exec E (Unit {0})
  send_all [] = pure tt
  send_all (batch ∷ rest) = write_batch F C go handle (buffered batch) >> send_all rest
