-- ===== src/Go/Store.antt =====
-- cgo/blockstore.go: the exported functions on the registered stores. A block is its CID and its bytes:
-- `blocks.NewBlockWithCid` without its debug check.
use ffi_demo.Base.{
  ℕ, Bool, true, false, Option, none, some, List, [], ◌∷◌, length, take, drop, ltb, if◌then◌else◌,
}
use ffi_demo.Base.Int.{ℤ, pos, negsuc, as_i32}
use ffi_demo.Fvm.Cgo.{invalid_handle, not_found, io, invalid_argument, panic, fvm_error_i32}
use ffi_demo.Go.{
  GoEnd, done, panicked, GoError, err_not_found, other_error, Externs, GoState, lookup_externs,
}

-- The libraries of the Go side: `cid.CidFromBytes`, with the length that it has read, and
-- `address.IDFromAddress`. `negative` is what the runtime does with a negative length.
pub record GoApi (Address : Type 0) : Type 0 where
  pub cid_from_bytes : List ℕ → Option (ℕ × List ℕ)
  pub id_from_address : Address → Option ℕ
  pub negative : GoEnd (List ℕ)
  -- what the Rust side makes of a block with a negative size, which is undefined there
  pub wild : List ℕ

-- `1 << 30`
abbrev pub max_len : ℕ
max_len = 1073741824

-- `C.GoStringN` and `C.GoBytes`, within the memory that the pointer stands for
unfoldable pub go_bytes : GoEnd (List ℕ) → List ℕ → ℤ → GoEnd (List ℕ)
go_bytes negative mem (pos n) = done (take n mem)
go_bytes negative mem (negsuc _) = negative

-- The block that the callback of `View` hands over, with its length as an `int32_t`.
unfoldable pub sized : List ℕ → List ℕ → ℤ → List ℕ
sized wild data_ (pos size) = take size data_
sized wild data_ (negsuc _) = wild

unfoldable pub view_code : List ℕ → GoEnd (List ℕ × Option GoError) → ℤ × List ℕ
unfolding sized fvm_error_i32
view_code wild (done (data_, none)) = (pos 0, sized wild data_ (as_i32 (length data_)))
view_code wild (done (data_, some err_not_found)) = (fvm_error_i32 not_found, [])
view_code wild (done (data_, some other_error)) = (fvm_error_i32 io, [])
view_code wild panicked = (fvm_error_i32 panic, [])

unfoldable pub put_end : GoEnd (Option GoError) → ℤ
unfolding fvm_error_i32
put_end (done none) = pos 0
put_end (done (some _)) = fvm_error_i32 io
put_end panicked = fvm_error_i32 panic

unfoldable pub has_end : GoEnd (Bool × Option GoError) → ℤ
unfolding fvm_error_i32
has_end (done (true, none)) = pos 1
has_end (done (false, none)) = pos 0
has_end (done (_, some err_not_found)) = pos 0
has_end (done (_, some other_error)) = fvm_error_i32 io
has_end panicked = fvm_error_i32 panic

abbrev pub no_data : ℤ → ℤ × List ℕ
no_data code = (code, [])

abbrev pub code_only : ℤ → ℤ
code_only code = code

module _ {Address : Type 0} (api : GoApi Address) where
  -- One length of the loop: the block, and the memory after it. `none` is `ErrInvalidArgument`.
  unfoldable pub read_block : ℕ → List ℕ → Option (List ℕ × List ℕ)
  read_block len block_buf =
      if ltb max_len len then none else elim (api.cid_from_bytes (take len block_buf)) [
        | none ↦ none
        | some (cid_len, k) ↦ some (k, drop cid_len (take len block_buf))
      ]

  add_block :
      Option (List ℕ × List ℕ)
      → GoEnd (Option (List (List ℕ × List ℕ)))
      → GoEnd (Option (List (List ℕ × List ℕ)))
  add_block none rest = done none
  add_block (some b) panicked = panicked
  add_block (some b) (done none) = done none
  add_block (some b) (done (some bs)) = done (some (b ∷ bs))

  -- The loop over the lengths: a negative length is a slice that is out of bounds.
  unfoldable pub read_blocks : List ℤ → List ℕ → GoEnd (Option (List (List ℕ × List ℕ)))
  unfolding read_block add_block
  read_blocks [] block_buf = done (some [])
  read_blocks (negsuc _ ∷ lengths) block_buf = panicked
  read_blocks (pos len ∷ lengths) block_buf =
      add_block (read_block len block_buf) (read_blocks lengths (drop len block_buf))

  -- The first `lengths_len` lengths, and their blocks.
  unfoldable pub batch_blocks : List ℤ → ℤ → List ℕ → GoEnd (Option (List (List ℕ × List ℕ)))
  unfolding read_blocks
  batch_blocks lengths (negsuc _) block_buf = panicked
  batch_blocks lengths (pos n) block_buf =
      if ltb max_len n then done none else read_blocks (take n lengths) block_buf

module _ {Address U : Type 0} where
  -- The `k` of each function: `toCid`, then the externs of the handle.
  unfoldable pub with_externs :
      {A : Type 0}
      → (ℤ → A)
      → ℕ
      → (Externs Address U → U → A × U)
      → GoState Address U
      → A × GoState Address U
  unfolding fvm_error_i32
  with_externs coded handle use_externs s = elim (lookup_externs handle s) [
    | none ↦ (coded (fvm_error_i32 invalid_handle), s)
    | some x ↦ let (r, u) = use_externs x s.user in (r, record s { user = u })
  ]

  -- A conversion of C memory, which may panic.
  unfoldable pub with_bytes :
      {A : Type 0}
      → (ℤ → A)
      → GoEnd (List ℕ)
      → (List ℕ → GoState Address U → A × GoState Address U)
      → GoState Address U
      → A × GoState Address U
  unfolding fvm_error_i32
  with_bytes coded panicked f s = (coded (fvm_error_i32 panic), s)
  with_bytes coded (done bytes) f s = f bytes s

  unfoldable pub put_blocks :
      Externs Address U → GoEnd (Option (List (List ℕ × List ℕ))) → U → ℤ × U
  unfolding put_end
  put_blocks x panicked u = (fvm_error_i32 panic, u)
  put_blocks x (done none) u = (fvm_error_i32 invalid_argument, u)
  put_blocks x (done (some blocks)) u = let (r, u') = x.put_many blocks u in (put_end r, u')

module _ {Address U : Type 0} (api : GoApi Address) where
  unfoldable pub cgo_blockstore_get :
      ℕ → List ℕ → ℤ → GoState Address U → (ℤ × List ℕ) × GoState Address U
  unfolding with_bytes with_externs go_bytes view_code
  cgo_blockstore_get handle k k_len =
      with_bytes no_data (go_bytes api.negative k k_len) λ c.
        with_externs no_data handle λ x u. let (r, u') = x.view c u in (view_code api.wild r, u')

  unfoldable pub cgo_blockstore_put :
      ℕ → List ℕ → ℤ → List ℕ → ℤ → GoState Address U → ℤ × GoState Address U
  unfolding with_bytes with_externs go_bytes put_end
  cgo_blockstore_put handle k k_len block block_len =
      with_bytes code_only (go_bytes api.negative k k_len) λ c. with_externs code_only handle λ x u.
        elim (go_bytes api.negative block block_len) [
          | panicked ↦ (fvm_error_i32 panic, u)
          | done b ↦ let (r, u') = x.put c b u in (put_end r, u')
        ]

  unfoldable pub cgo_blockstore_has : ℕ → List ℕ → ℤ → GoState Address U → ℤ × GoState Address U
  unfolding with_bytes with_externs go_bytes has_end
  cgo_blockstore_has handle k k_len =
      with_bytes code_only (go_bytes api.negative k k_len)
        λ c. with_externs code_only handle λ x u. let (r, u') = x.has c u in (has_end r, u')

  unfoldable pub cgo_blockstore_put_many :
      ℕ → List ℤ → ℤ → List ℕ → GoState Address U → ℤ × GoState Address U
  unfolding with_externs batch_blocks put_blocks
  cgo_blockstore_put_many handle lengths lengths_len block_buf =
      with_externs code_only handle
        λ x. put_blocks x (batch_blocks api lengths lengths_len block_buf)
