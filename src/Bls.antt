-- ===== src/Bls.antt =====
-- rust/src/bls/api.rs: the exported functions on BLS signatures. The crates `bls_signatures` and
-- `blstrs` are a parameter. Nothing here catches a panic, so a panic is a result of its own.
pub mod Slices
pub mod Verify
pub mod HashVerify
pub mod Keys
use ffi_demo.Base.{
  ℕ, ◌+◌, ◌-◌, ◌*◌, ◌/◌, ◌%◌, ◌^◌, String, Bool, true, false, not, Option, none, some, List, [],
  ◌∷◌, ◌++◌, map, length, take, drop, replicate, ltb, leb, ◌==◌, if◌then◌else◌,
}
use ffi_demo.Base.Chunks.{chunks}
use ffi_demo.Base.Effect.{Payload, static_str, owned, Unwind, returns, panics}

abbrev pub signature_bytes : ℕ
signature_bytes = 96

abbrev pub private_key_bytes : ℕ
private_key_bytes = 32

abbrev pub public_key_bytes : ℕ
public_key_bytes = 48

abbrev pub digest_bytes : ℕ
digest_bytes = 96

-- The crates: a parse that fails is `none`, since the code drops its errors.
pub record BlsApi : Type 1 where
  pub Signature : Type 0
  pub PublicKey : Type 0
  pub PrivateKey : Type 0
  pub Digest : Type 0
  pub Rng : Type 0
  pub signature_from_bytes : List ℕ → Option Signature
  pub signature_to_bytes : Signature → List ℕ
  pub public_key_from_bytes : List ℕ → Option PublicKey
  pub public_key_to_bytes : PublicKey → List ℕ
  pub private_key_from_bytes : List ℕ → Option PrivateKey
  pub private_key_to_bytes : PrivateKey → List ℕ
  -- `hash` and its `to_bytes`; `G2Affine::from_compressed`, as a projective point
  pub hash_sig : List ℕ → Digest
  pub digest_to_bytes : Digest → List ℕ
  pub from_compressed : List ℕ → Option Digest
  pub aggregate_sig : List Signature → Option Signature
  pub verify_sig : Signature → List Digest → List PublicKey → Bool
  pub verify_messages_sig : Signature → List (List ℕ) → List PublicKey → Bool
  pub sign : PrivateKey → List ℕ → Signature
  pub public_key : PrivateKey → PublicKey
  pub generate : Rng → PrivateKey
  pub os_rng : Rng
  pub from_seed : List ℕ → Rng
  -- `G2Affine::identity().into()`
  pub identity_signature : Signature

-- `match res { Ok(res) => .., Err(_) => return val }`
abbrev pub try_ffi {ℓ κ} : {A : Type ℓ} {B : Type κ} → Option A → B → (A → B) → B
try_ffi (some a) val rest = rest a
try_ffi none val rest = val

-- `.collect::<Result<Vec<_>, _>>()` of parsed pieces
unfoldable pub collect {ℓ κ} : {A : Type ℓ} {B : Type κ} → (A → Option B) → List A → Option (List B)
collect f [] = some []
collect f (x ∷ xs) = try_ffi (f x) none λ y. try_ffi (collect f xs) none λ ys. some (y ∷ ys)

-- `write_bytes` into a buffer of `n` zeros, and `expect("preallocated")`
unfoldable pub write_preallocated : ℕ → List ℕ → Unwind (List ℕ)
write_preallocated n bytes =
    if leb (length bytes) n
    then returns (bytes ++ replicate (n - length bytes) 0)
    else panics (owned "preallocated")

abbrev pub map_returns {ℓ κ} : {A : Type ℓ} {B : Type κ} → (A → B) → Unwind A → Unwind B
map_returns f (returns a) = returns (f a)
map_returns f (panics p) = panics p

-- `&flattened[start..end]`
unfoldable pub slice : ℕ → ℕ → List ℕ → Unwind (List ℕ)
slice start end bytes =
    if ltb end start
    then panics (owned "slice index starts after its end")
    else if ltb (length bytes) end
    then panics (owned "range end index out of range")
    else returns (take (end - start) (drop start bytes))

abbrev pub usize_mod : ℕ
usize_mod = 2 ^ 64

-- the pieces after the first
unfoldable pub push_slice : Unwind (List ℕ) → Unwind (List (List ℕ)) → Unwind (List (List ℕ))
push_slice (panics p) rest = panics p
push_slice (returns m) (panics p) = panics p
push_slice (returns m) (returns ms) = returns (m ∷ ms)

-- The loop over `message_sizes`, with the additions to `offset` as `usize`.
unfoldable pub split_messages : ℕ → List ℕ → List ℕ → Unwind (List (List ℕ))
unfolding slice push_slice
split_messages offset [] flattened = returns []
split_messages offset (chunk_size ∷ sizes) flattened =
    let next = (offset + chunk_size) % usize_mod in
    push_slice (slice offset next flattened) (split_messages next sizes flattened)

module _ (B : BlsApi) where
  -- `raw_digest.as_ref().try_into().expect("known size")`
  unfoldable pub hash : List ℕ → Unwind (List ℕ)
  hash message =
      let raw_digest = B.digest_to_bytes (B.hash_sig message) in
      if length raw_digest == digest_bytes then returns raw_digest else panics (owned "known size")

  unfoldable pub aggregate : List ℕ → Unwind (Option (List ℕ))
  unfolding collect write_preallocated
  aggregate flattened_signatures =
      try_ffi (collect B.signature_from_bytes (chunks signature_bytes flattened_signatures))
        (returns none)
        λ signatures. try_ffi (B.aggregate_sig signatures) (returns none) λ aggregated.
          map_returns some (write_preallocated signature_bytes (B.signature_to_bytes aggregated))

  -- `digest.as_mut().copy_from_slice(item)`, which panics on another length, for each piece, and the
  -- collection of the decoded points.
  unfoldable pub decode_digests : List (List ℕ) → Unwind (Option (List B.Digest))
  decode_digests [] = returns (some [])
  decode_digests (item ∷ items) =
      if length item == digest_bytes
      then map_returns
          (λ rest. try_ffi (B.from_compressed item) none λ d. try_ffi rest none λ ds. some (d ∷ ds))
          (decode_digests items)
      else panics (owned "source slice length does not match destination slice length")

  unfoldable pub after_digests :
      B.Signature → List ℕ → Unwind (Option (List B.Digest)) → Unwind Bool
  unfolding collect
  after_digests signature flattened_public_keys (panics p) = panics p
  after_digests signature flattened_public_keys (returns none) = returns false
  after_digests signature flattened_public_keys (returns (some digests)) =
      try_ffi (collect B.public_key_from_bytes (chunks public_key_bytes flattened_public_keys))
        (returns false) λ public_keys. returns (B.verify_sig signature digests public_keys)

  unfoldable pub verify : List ℕ → List ℕ → List ℕ → Unwind Bool
  unfolding decode_digests after_digests
  verify signature flattened_digests flattened_public_keys =
      try_ffi (B.signature_from_bytes signature) (returns false) λ signature'.
        if not (length flattened_digests % digest_bytes == 0)
        then returns false
        else if not (length flattened_public_keys % public_key_bytes == 0)
        then returns false
        else if not (
            length flattened_digests / digest_bytes
            == length flattened_public_keys / public_key_bytes)
        then returns false
        else after_digests signature' flattened_public_keys
            (decode_digests (chunks digest_bytes flattened_digests))

  -- what follows the loop over the sizes
  unfoldable pub after_split : B.Signature → List ℕ → List (List ℕ) → Bool
  unfolding collect
  after_split signature flattened_public_keys messages =
      if not (length flattened_public_keys % public_key_bytes == 0)
      then false
      else try_ffi (collect B.public_key_from_bytes (chunks public_key_bytes flattened_public_keys))
          false λ public_keys. B.verify_messages_sig signature messages public_keys

  unfoldable pub hash_verify : List ℕ → List ℕ → List ℕ → List ℕ → Unwind Bool
  unfolding split_messages after_split
  hash_verify signature flattened_messages message_sizes flattened_public_keys =
      try_ffi (B.signature_from_bytes signature) (returns false) λ signature'.
        map_returns (after_split signature' flattened_public_keys)
          (split_messages 0 message_sizes flattened_messages)

  unfoldable pub private_key_generate : Unwind (List ℕ)
  unfolding write_preallocated
  private_key_generate =
      write_preallocated private_key_bytes (B.private_key_to_bytes (B.generate B.os_rng))

  unfoldable pub private_key_generate_with_seed : List ℕ → Unwind (List ℕ)
  unfolding write_preallocated
  private_key_generate_with_seed raw_seed =
      write_preallocated private_key_bytes
        (B.private_key_to_bytes (B.generate (B.from_seed raw_seed)))

  unfoldable pub private_key_sign : List ℕ → List ℕ → Unwind (Option (List ℕ))
  unfolding write_preallocated
  private_key_sign raw_private_key message =
      try_ffi (B.private_key_from_bytes raw_private_key) (returns none) λ private_key.
        map_returns some
          (write_preallocated signature_bytes (B.signature_to_bytes (B.sign private_key message)))

  unfoldable pub private_key_public_key : List ℕ → Unwind (Option (List ℕ))
  unfolding write_preallocated
  private_key_public_key raw_private_key =
      try_ffi (B.private_key_from_bytes raw_private_key) (returns none) λ private_key.
        map_returns some
          (write_preallocated public_key_bytes (B.public_key_to_bytes (B.public_key private_key)))

  unfoldable pub create_zero_signature : Unwind (List ℕ)
  unfolding write_preallocated
  create_zero_signature =
      write_preallocated signature_bytes (B.signature_to_bytes B.identity_signature)
