-- ===== src/Ffi/Slices.antt =====
-- Byte slices on their way to Rust: `AsByteArray32` of cgo/helpers.go and the loops of bls.go that
-- flatten arrays of one length.
pub mod Laws
use ffi_demo.Base.{
  ℕ, zero, suc, ◌+◌, ◌-◌, ◌*◌, List, [], ◌∷◌, ◌++◌, length, take, drop, replicate, ltb,
  if◌then◌else◌,
}
use ffi_demo.Go.{GoEnd, done, panicked}

abbrev pub zeros : ℕ → List ℕ
zeros n = replicate n 0

-- `copy(buf[start:end], src)`, of as many bytes as both have; `end` is at most `len(buf)` here
unfoldable pub copy_into : ℕ → ℕ → List ℕ → List ℕ → List ℕ
copy_into start end src buf =
    let copied = take (end - start) src in
    take start buf ++ (copied ++ drop (start + length copied) buf)

-- `for idx, piece := range pieces`, from an index on
unfoldable pub flatten_from : ℕ → ℕ → List (List ℕ) → List ℕ → List ℕ
unfolding copy_into
flatten_from n idx [] buf = buf
flatten_from n idx (piece ∷ pieces) buf =
    flatten_from n (1 + idx) pieces (copy_into (n * idx) (n * (1 + idx)) piece buf)

-- `make([]byte, n*len(pieces))` and the loop
unfoldable pub flatten : ℕ → List (List ℕ) → List ℕ
unfolding flatten_from
flatten n pieces = flatten_from n 0 pieces (zeros (n * length pieces))

-- `ary.idx[idx] = b` on an array, which panics out of range
unfoldable pub set_index : ℕ → ℕ → List ℕ → GoEnd (List ℕ)
set_index i b [] = panicked
set_index zero b (x ∷ ary) = done (b ∷ ary)
set_index (suc i) b (x ∷ ary) = elim (set_index i b ary) [
  | done ary' ↦ done (x ∷ ary')
  | panicked ↦ panicked
]

-- `for idx := range goSlice` with its guard `idx < l`
unfoldable pub fill_from : ℕ → ℕ → List ℕ → GoEnd (List ℕ) → GoEnd (List ℕ)
unfolding set_index
fill_from l idx rest panicked = panicked
fill_from l idx [] (done ary) = done ary
fill_from l idx (b ∷ bytes) (done ary) =
    fill_from l (1 + idx) bytes (if ltb idx l then set_index idx b ary else done ary)

-- `AsByteArray32`
unfoldable pub as_byte_array32 : List ℕ → GoEnd (List ℕ)
unfolding fill_from
as_byte_array32 bytes = fill_from (length bytes) 0 bytes (done (zeros 32))
