-- ===== src/Bls/Keys.antt =====
-- Keys, signatures and their verification, end to end.
use ffi_demo.Base.{
  ℕ, ◌-◌, ◌<◌, ◌≡◌, refl, ap, ◌∙◌, true, some, List, [], ◌∷◌, append-nil, length, take-length, map,
  concat, Option-cases, inl, inr, arith,
}
use mathlib.Core.Option.{map as option_map}
use ffi_demo.Base.Chunks.{AllLength, chunks_self, chunks-concat}
use ffi_demo.Base.Effect.{returns}
use ffi_demo.Bls.{
  signature_bytes, private_key_bytes, public_key_bytes, digest_bytes, BlsApi, collect, push_slice,
  write_preallocated, map_returns, after_split, usize_mod, split_messages, hash, verify, aggregate,
  hash_verify, private_key_sign, private_key_public_key, private_key_generate_with_seed,
}
use ffi_demo.Bls.Slices.{split_messages_step}
use ffi_demo.Bls.Verify.{Accepted-verify}

-- What the crates document of every value: the sizes of the encodings, and that they decode.
pub record IsLawful (B : BlsApi) : Type 0 where
  pub signature_length : (s : B.Signature) → length (B.signature_to_bytes s) ≡ signature_bytes
  pub public_key_length : (k : B.PublicKey) → length (B.public_key_to_bytes k) ≡ public_key_bytes
  pub private_key_length :
      (k : B.PrivateKey) → length (B.private_key_to_bytes k) ≡ private_key_bytes
  pub digest_length : (d : B.Digest) → length (B.digest_to_bytes d) ≡ digest_bytes
  pub signature_decodes :
      (s : B.Signature) → B.signature_from_bytes (B.signature_to_bytes s) ≡ some s
  pub public_key_decodes :
      (k : B.PublicKey) → B.public_key_from_bytes (B.public_key_to_bytes k) ≡ some k
  pub private_key_decodes :
      (k : B.PrivateKey) → B.private_key_from_bytes (B.private_key_to_bytes k) ≡ some k
  pub digest_decodes : (d : B.Digest) → B.from_compressed (B.digest_to_bytes d) ≡ some d

-- The library accepts what this key signs. It does not for every key: zero is refused.
pub record IsSound (B : BlsApi) (k : B.PrivateKey) : Type 0 where
  pub verifies :
      (m : List ℕ) → B.verify_sig (B.sign k m) (B.hash_sig m ∷ []) (B.public_key k ∷ []) ≡ true
  pub verifies_message :
      (m : List ℕ) → B.verify_messages_sig (B.sign k m) (m ∷ []) (B.public_key k ∷ []) ≡ true

-- An encoding of the size of the buffer fills it.
write_preallocated_exact :
    (n : ℕ) (bytes : List ℕ) → length bytes ≡ n → write_preallocated n bytes ≡ returns bytes
unfolding write_preallocated
write_preallocated_exact n bytes h =
    let none_left : n - length bytes ≡ 0 = omega arith in
    rw none_left (ground (arith, append-nil bytes))

-- One message of its own size.
split_messages_whole :
    (m : List ℕ) → length m < usize_mod → split_messages 0 (length m ∷ []) m ≡ returns (m ∷ [])
unfolding split_messages push_slice
split_messages_whole m h =
    split_messages_step 0 (length m) [] m h (omega arith)
    ∙ ap (λ n. returns (n ∷ [])) (take-length m)

module _ (B : BlsApi) (L : IsLawful B) (k : B.PrivateKey) where
  pub signed :
      (raw m : List ℕ)
      → B.private_key_from_bytes raw ≡ some k
      → (private_key_sign B raw m ≡ returns (some (B.signature_to_bytes (B.sign k m))))
        × (private_key_public_key B raw ≡ returns (some (B.public_key_to_bytes (B.public_key k))))
        × (hash B m ≡ returns (B.digest_to_bytes (B.hash_sig m)))
  unfolding private_key_sign private_key_public_key hash
  signed raw m h = (
    rw h (ap (map_returns some) (write_preallocated_exact _ _ (L.signature_length _))),
    rw h (ap (map_returns some) (write_preallocated_exact _ _ (L.public_key_length _))),
    ground (arith, L.digest_length (B.hash_sig m)),
  )

  verified :
      IsSound B k
      → (m : List ℕ)
      → verify B
          (B.signature_to_bytes (B.sign k m))
          (B.digest_to_bytes (B.hash_sig m))
          (B.public_key_to_bytes (B.public_key k))
        ≡ returns true
  verified sound m = Accepted-verify B _ _ _ (record {
    parsed = B.sign k m;
    points = B.hash_sig m ∷ [];
    keys = B.public_key k ∷ [];
    count = 1;
    signature_parses = L.signature_decodes _;
    digests_length = L.digest_length _;
    keys_length = L.public_key_length _;
    digests_decode = rw (
      chunks_self digest_bytes _ (omega arith) (L.digest_length (B.hash_sig m)),
      L.digest_decodes (B.hash_sig m),
    );
    keys_parse = rw (
      chunks_self public_key_bytes _ (omega arith) (L.public_key_length (B.public_key k)),
      L.public_key_decodes (B.public_key k),
    );
    accepted = sound.verifies m;
  })

  after_split_key :
      IsSound B k
      → (m : List ℕ)
      → after_split B (B.sign k m) (B.public_key_to_bytes (B.public_key k)) (m ∷ []) ≡ true
  unfolding after_split collect
  after_split_key sound m =
      let cut =
        chunks_self public_key_bytes _ (omega arith) (L.public_key_length (B.public_key k)) in
      rw (cut, L.public_key_decodes (B.public_key k), L.public_key_length (B.public_key k))
        (sound.verifies_message m)

  hash_verified :
      IsSound B k
      → (m : List ℕ) → length m < usize_mod
      → hash_verify B
          (B.signature_to_bytes (B.sign k m))
          m
          (length m ∷ [])
          (B.public_key_to_bytes (B.public_key k))
        ≡ returns true
  unfolding hash_verify split_messages after_split
  hash_verified sound m h =
      rw (L.signature_decodes (B.sign k m), split_messages_whole m h)
        (ap returns (after_split_key sound m))

  -- With a sound private key that parses and a message of the length of a `usize`, signing, the public key
  -- and the hash of the message are returned, and both `verify` and `hash_verify` accept them.
  pub sign-verify :
      IsSound B k
      → (raw m : List ℕ) → B.private_key_from_bytes raw ≡ some k
      → length m < usize_mod
      → (signature public_key digest : List ℕ) × (private_key_sign B raw m
          ≡ returns (some signature))
        × (private_key_public_key B raw ≡ returns (some public_key))
        × (hash B m ≡ returns digest)
        × (verify B signature digest public_key ≡ returns true)
        × (hash_verify B signature m (length m ∷ []) public_key ≡ returns true)
  sign-verify sound raw m parses small =
      let (s, p, d) = signed raw m parses in
      (_, _, _, s, p, d, verified sound m, hash_verified sound m small)

-- A key generated from a seed signs, if it is sound: with a lawful library and a message of the length of a
-- `usize`, the key is returned, and what it signs is accepted by both `verify` and `hash_verify`.
pub generate-verify :
    (B : BlsApi)
    → IsLawful B
    → (seed m : List ℕ) → IsSound B (B.generate (B.from_seed seed))
    → length m < usize_mod
    → (raw signature public_key digest : List ℕ) × (private_key_generate_with_seed B seed
        ≡ returns raw)
      × (private_key_sign B raw m ≡ returns (some signature))
      × (private_key_public_key B raw ≡ returns (some public_key))
      × (hash B m ≡ returns digest)
      × (verify B signature digest public_key ≡ returns true)
      × (hash_verify B signature m (length m ∷ []) public_key ≡ returns true)
unfolding private_key_generate_with_seed
generate-verify B L seed m sound small =
    let k = B.generate (B.from_seed seed) in
    let made = write_preallocated_exact private_key_bytes _ (L.private_key_length k) in
    let (signature, public_key, digest, s, p, d, v, hv) =
      sign-verify B L k sound _ m (L.private_key_decodes k) small in
    (_, signature, public_key, digest, made, s, p, d, v, hv)

decoded :
    (B : BlsApi) (L : IsLawful B) (signatures : List B.Signature)
    → collect B.signature_from_bytes (map B.signature_to_bytes signatures) ≡ some signatures
unfolding collect
decoded B L [] = refl
decoded B L (s ∷ signatures) = rw (L.signature_decodes s, decoded B L signatures)

pub all_signatures :
    (B : BlsApi)
    → IsLawful B
    → (signatures : List B.Signature)
    → AllLength signature_bytes (map B.signature_to_bytes signatures)
all_signatures B L [] = tt
all_signatures B L (s ∷ signatures) = (L.signature_length s, all_signatures B L signatures)

-- The encodings of a lawful library's signatures, one after the other, are read back in their order:
-- `aggregate` returns the encoding of what the library makes of the signatures, and nothing if it
-- refuses them.
pub aggregate-signatures :
    (B : BlsApi)
    → IsLawful B
    → (signatures : List B.Signature)
    → aggregate B (concat (map B.signature_to_bytes signatures))
      ≡ returns (option_map B.signature_to_bytes (B.aggregate_sig signatures))
unfolding aggregate
aggregate-signatures B L signatures =
    rw
      (
        chunks-concat signature_bytes _ (omega arith) (all_signatures B L signatures),
        decoded B L signatures,
      )
      (elim (Option-cases (B.aggregate_sig signatures)) [
        | inl none_made ↦ rw none_made
        | inr (made, e) ↦
            rw e (ap (map_returns some) (write_preallocated_exact _ _ (L.signature_length made)))
      ])
