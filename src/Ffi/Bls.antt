-- ===== src/Ffi/Bls.antt =====
-- bls.go, over the functions of cgo/bls.go. Signatures, keys, digests and seeds are arrays, which are
-- lists of their lengths here. A panic of the Rust library ends the call, as does one of Go.
pub mod Laws
pub mod Keys
use ffi_demo.Base.{ℕ, ◌+◌, ◌%◌, Bool, Option, none, some, List, [], ◌∷◌, ◌++◌, map, length}
use ffi_demo.Base.Effect.{owned, Unwind, panics}
use ffi_demo.Bls.{
  signature_bytes, private_key_bytes, public_key_bytes, digest_bytes, BlsApi, map_returns,
  usize_mod,
}
use ffi_demo.Bls as Rust
use ffi_demo.Go.{GoEnd, done, panicked}
use ffi_demo.Ffi.Slices.{zeros, flatten, as_byte_array32}

-- `if ptr == nil { return [n]byte{} }; return *ptr`
abbrev pub or_zeros : ℕ → Option (List ℕ) → List ℕ
or_zeros n none = zeros n
or_zeros n (some bytes) = bytes

-- A call of Rust after Go code, which may have panicked.
unfoldable pub after_go {ℓ κ} : {A : Type ℓ} {B : Type κ} → GoEnd A → (A → Unwind B) → Unwind B
after_go (done a) k = k a
after_go panicked k = panics (owned "index out of range")

-- `flattenedMessages = append(flattenedMessages, messages[idx]...)`, for each message
unfoldable pub flatten_messages : List ℕ → List (List ℕ) → List ℕ
flatten_messages flattened [] = flattened
flatten_messages flattened (m ∷ messages) = flatten_messages (flattened ++ m) messages

-- `uint(len(messages[idx]))`, for each message
abbrev pub messages_sizes : List (List ℕ) → List ℕ
messages_sizes messages = map (λ m. length m % usize_mod) messages

module _ (B : BlsApi) where
  -- The exported function returns a box, so its pointer is not nil.
  unfoldable pub hash : List ℕ → Unwind (List ℕ)
  hash message = map_returns (λ digest. or_zeros digest_bytes (some digest)) (Rust.hash B message)

  unfoldable pub verify : List ℕ → List (List ℕ) → List (List ℕ) → Unwind Bool
  unfolding flatten
  verify signature digests public_keys =
      let flattened_digests = flatten digest_bytes digests in
      let flattened_public_keys = flatten public_key_bytes public_keys in
      Rust.verify B signature flattened_digests flattened_public_keys

  unfoldable pub hash_verify : List ℕ → List (List ℕ) → List (List ℕ) → Unwind Bool
  unfolding flatten flatten_messages
  hash_verify signature messages public_keys =
      let flattened_messages = flatten_messages [] messages in
      let flattened_public_keys = flatten public_key_bytes public_keys in
      Rust.hash_verify B signature flattened_messages (messages_sizes messages)
        flattened_public_keys

  -- `none` is a nil pointer.
  unfoldable pub aggregate : List (List ℕ) → Unwind (Option (List ℕ))
  unfolding flatten
  aggregate signatures = Rust.aggregate B (flatten signature_bytes signatures)

  unfoldable pub private_key_generate : Unwind (List ℕ)
  private_key_generate =
      map_returns (λ key. or_zeros private_key_bytes (some key)) (Rust.private_key_generate B)

  unfoldable pub private_key_generate_with_seed : List ℕ → Unwind (List ℕ)
  unfolding after_go as_byte_array32
  private_key_generate_with_seed seed = after_go (as_byte_array32 seed) λ ary.
      map_returns (λ key. or_zeros private_key_bytes (some key))
        (Rust.private_key_generate_with_seed B ary)

  unfoldable pub private_key_sign : List ℕ → List ℕ → Unwind (Option (List ℕ))
  private_key_sign private_key message = Rust.private_key_sign B private_key message

  unfoldable pub private_key_public_key : List ℕ → Unwind (Option (List ℕ))
  private_key_public_key private_key = Rust.private_key_public_key B private_key

  unfoldable pub create_zero_signature : Unwind (List ℕ)
  create_zero_signature =
      map_returns (λ signature. or_zeros signature_bytes (some signature))
        (Rust.create_zero_signature B)
