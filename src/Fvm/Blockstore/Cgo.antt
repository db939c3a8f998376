-- ===== src/Fvm/Blockstore/Cgo.antt =====
-- rust/src/fvm/blockstore/cgo.rs: the store of the Go side, behind a handle.
pub mod Codes
use ffi_demo.Base.{
  ℕ, zero, suc, ◌+◌, ◌-◌, String, ◌<>◌, Bool, true, false, ◌||◌, Option, none, some, List, [], ◌∷◌,
  ◌++◌, length, leb, ltb, if◌then◌else◌,
}
use ffi_demo.Base.Int.{ℤ, pos, negsuc, as_i32}
use ffi_demo.Base.Effect.{
  message, static_str, owned, Result, Exec, pure, raise, panic, lift, ◌>>=◌, ◌>>◌,
}
use ffi_demo.Fvm.Cgo.{Std, CgoApi}
use ffi_demo.Fvm.Blockstore.{CidApi, Blockstore}

-- 4 << 20
abbrev pub max_buf_size : ℕ
max_buf_size = 4194304

abbrev pub max_block_batch : ℕ
max_block_batch = 1024

abbrev pub est_max_cid_len : ℕ
est_max_cid_len = 100

module _ (F : Std) {E : Type 0} where
  not_registered : {A : Type 0} → ℕ → Exec E A
  not_registered handle = panic (owned ("blockstore " <> F.show_u64 handle <> " not registered"))

  invalid_return : {A : Type 0} → String → ℤ → Exec E A
  invalid_return method r =
      panic (owned ("invalid return value from " <> method <> ": " <> F.show_i32 r))

  failed : {A : Type 0} → String → ℤ → Exec E A
  failed method e =
      raise (message ("cgo blockstore '" <> method <> "' failed with error code " <> F.show_i32 e))

  -- The `match` of `has`: -2 is `FvmError::NotFound` and -1 is `FvmError::InvalidHandle`.
  unfoldable pub has_code : ℕ → ℤ → Exec E Bool
  unfolding not_registered invalid_return failed
  has_code handle (pos zero) = pure false
  has_code handle (negsuc (suc zero)) = pure false
  has_code handle (pos (suc zero)) = pure true
  has_code handle (pos (suc (suc r))) = invalid_return "has" (pos (suc (suc r)))
  has_code handle (negsuc zero) = not_registered handle
  has_code handle (negsuc (suc (suc e))) = failed "has" (negsuc (suc (suc e)))

  -- The `match` of `get`, with the buffer that the call filled.
  unfoldable pub get_code : ℕ → ℤ → List ℕ → Exec E (Option (List ℕ))
  unfolding not_registered invalid_return failed
  get_code handle (pos zero) buf = pure (some buf)
  get_code handle (pos (suc r)) buf = invalid_return "get" (pos (suc r))
  get_code handle (negsuc zero) buf = not_registered handle
  get_code handle (negsuc (suc zero)) buf = pure none
  get_code handle (negsuc (suc (suc e))) buf = failed "get" (negsuc (suc (suc e)))

  -- The `match` of `put_keyed` and of `flush_buffered`, which differ in one text.
  unfoldable pub put_code : String → ℕ → ℤ → Exec E (Unit {0})
  unfolding not_registered invalid_return failed
  put_code method handle (pos zero) = pure tt
  put_code method handle (pos (suc r)) = invalid_return method (pos (suc r))
  put_code method handle (negsuc zero) = not_registered handle
  put_code method handle (negsuc (suc zero)) = panic (static_str "not found error on put")
  put_code method handle (negsuc (suc (suc e))) = failed "put" (negsuc (suc (suc e)))

module _ (F : Std) (C : CidApi) {E : Type 0} (go : CgoApi E) (handle : ℕ) where
  unfoldable pub has : C.Cid → Exec E Bool
  unfolding has_code
  has k e =
      let k_bytes = C.to_bytes k in
      let (code, e') = go.blockstore_has handle k_bytes (as_i32 (length k_bytes)) e in
      has_code F handle code e'

  unfoldable pub get : C.Cid → Exec E (Option (List ℕ))
  unfolding get_code
  get k e =
      let k_bytes = C.to_bytes k in
      let ((code, buf), e') = go.blockstore_get handle k_bytes (as_i32 (length k_bytes)) e in
      get_code F handle code buf e'

  unfoldable pub put_keyed : C.Cid → List ℕ → Exec E (Unit {0})
  unfolding put_code
  put_keyed k block e =
      let k_bytes = C.to_bytes k in
      let (code, e') =
        go.blockstore_put handle k_bytes (as_i32 (length k_bytes)) block (as_i32 (length block))
          e in
      put_code F "put" handle code e'

  -- The lengths and the buffer that are not yet written.
  pub record Buffered : Type 0 where
    pub lengths : List ℤ
    pub buf : List ℕ

  abbrev pub no_blocks : Buffered
  no_blocks = record { lengths = []; buf = [] }

  -- `cgo_blockstore_put_many` and the `match` on its code.
  unfoldable pub write_batch : Buffered → Exec E (Unit {0})
  unfolding put_code
  write_batch b e =
      let (code, e') =
        go.blockstore_put_many handle b.lengths (as_i32 (length b.lengths)) b.buf e in
      put_code F "put_many" handle code e'

  -- An empty buffer is left alone; any other is written, and cleared with the lengths.
  unfoldable pub flush_buffered : Buffered → Exec E Buffered
  unfolding write_batch
  flush_buffered b = elim b.buf [ [] ↦ pure b | _ ∷ _ ↦ write_batch b >> pure no_blocks ]

  -- The condition for a flush before a block.
  abbrev pub is_full : Buffered → List ℕ → Bool
  is_full b block =
      leb max_block_batch (length b.lengths)
      || ltb max_buf_size (est_max_cid_len + length block + length b.buf)

  -- The block after its CID, and the size of both.
  abbrev pub push_block : Buffered → List ℕ → List ℕ → Buffered
  push_block b k_bytes block =
      let start = length b.buf in
      let buf = (b.buf ++ k_bytes) ++ block in
      record { lengths = b.lengths ++ (as_i32 (length buf - start) ∷ []); buf = buf }

  -- The body of the loop after the flush.
  unfoldable pub buffer_block : C.Cid → List ℕ → Buffered → Exec E Buffered
  buffer_block k block b = do k_bytes ← lift (C.write_bytes k); pure (push_block b k_bytes block)

  unfoldable pub put_many_loop : List (C.Cid × List ℕ) → Buffered → Exec E (Unit {0})
  unfolding flush_buffered buffer_block
  put_many_loop [] b = flush_buffered b >> pure tt
  put_many_loop ((k, block) ∷ blocks) b = do
    b' ← if is_full b block then flush_buffered b else pure b
    b'' ← buffer_block k block b'
    put_many_loop blocks b''

  unfoldable pub put_many_keyed : List (C.Cid × List ℕ) → Exec E (Unit {0})
  unfolding put_many_loop
  put_many_keyed blocks = put_many_loop blocks no_blocks

  -- `impl Blockstore for CgoBlockstore`; `put` and `put_many` are the trait's own.
  abbrev pub cgo_blockstore :
      {Block : Type 0}
      → (C.Code → Block → Exec E C.Cid)
      → (List (C.Code × Block) → Exec E (Unit {0}))
      → Blockstore C Block
  cgo_blockstore put put_many = record {
    State = E;
    get = get;
    put_keyed = put_keyed;
    has = has;
    put = put;
    put_many = put_many;
    put_many_keyed = put_many_keyed;
  }
