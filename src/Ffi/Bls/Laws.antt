-- ===== src/Ffi/Bls/Laws.antt =====
-- What `Verify` and `HashVerify` of bls.go accept.
use ffi_demo.Base.{
  ℕ, ◌%◌, ◌<◌, ◌≡◌, refl, sym, ap, ◌∙◌, ◌↔◌, Bool, true, some, List, [], ◌∷◌, ◌++◌, map, append-nil,
  append_assoc, concat, sum, length, take, take-length, inl, inr, arith,
}
use ffi_demo.Base.Chunks.{AllLength, chunks, chunks-concat}
use ffi_demo.Base.Effect.{returns, Unwind-cases}
use ffi_demo.Bls.{public_key_bytes, digest_bytes, usize_mod, BlsApi}
use ffi_demo.Bls as Rust
use ffi_demo.Bls.Slices.{AllUsize}
use ffi_demo.Bls.Verify.{Accepted, verify_iff}
use ffi_demo.Bls.HashVerify.{length-concat, concat-injective, AcceptedMessages, hash_verify_iff}
use ffi_demo.Ffi.Slices.Laws.{flatten-concat, length-concat-AllLength}
use ffi_demo.Ffi.Bls.{flatten_messages, messages_sizes, verify, hash_verify}

flatten_messages_from :
    (before : List ℕ) (ms : List (List ℕ)) → flatten_messages before ms ≡ before ++ concat ms
unfolding flatten_messages
flatten_messages_from before [] = sym (append-nil before)
flatten_messages_from before (m ∷ ms) =
    flatten_messages_from (before ++ m) ms ∙ append_assoc before m (concat ms)

-- Messages that fit together have their lengths as sizes.
sizes_fit :
    (ms : List (List ℕ))
    → sum (map length ms) < usize_mod
    → (messages_sizes ms ≡ map length ms) × AllUsize (map length ms)
sizes_fit [] h = (refl, tt)
sizes_fit (m ∷ ms) h =
    let (same, all) = sizes_fit ms (omega arith) in
    let small : length m % usize_mod ≡ length m = omega arith in
    (rw (small, same) refl, (omega arith, all))

module _ (B : BlsApi) where
  hash_verify_flat :
      (signature : List ℕ) (ms keys : List (List ℕ))
      → AllLength public_key_bytes keys
      → length (concat ms) < usize_mod
      → hash_verify B signature ms keys
        ≡ Rust.hash_verify B signature (concat ms) (map length ms) (concat keys)
  unfolding hash_verify
  hash_verify_flat signature ms keys a l =
      rw
        (
          flatten_messages_from [] ms,
          flatten-concat public_key_bytes keys a,
          (sizes_fit ms (omega (arith, length-concat ms))).0,
        )
        refl

  verify_flat :
      (signature : List ℕ) (digests keys : List (List ℕ))
      → AllLength digest_bytes digests
      → AllLength public_key_bytes keys
      → verify B signature digests keys ≡ Rust.verify B signature (concat digests) (concat keys)
  unfolding verify
  verify_flat signature digests keys d a =
      rw (flatten-concat digest_bytes digests d, flatten-concat public_key_bytes keys a) refl

  -- What the library is asked about messages.
  pub record AcceptsMessages (signature : List ℕ) (messages public_keys : List (List ℕ))
      : Type 0 where
    pub parsed : B.Signature
    pub keys : List B.PublicKey
    pub signature_parses : B.signature_from_bytes signature ≡ some parsed
    pub keys_parse : map B.public_key_from_bytes public_keys ≡ map some keys
    pub accepted : B.verify_messages_sig parsed messages keys ≡ true

  -- What the library is asked about digests.
  pub record AcceptsDigests (signature : List ℕ) (digests public_keys : List (List ℕ))
      : Type 0 where
    pub parsed : B.Signature
    pub points : List B.Digest
    pub keys : List B.PublicKey
    pub same_count : length digests ≡ length public_keys
    pub signature_parses : B.signature_from_bytes signature ≡ some parsed
    pub digests_decode : map B.from_compressed digests ≡ map some points
    pub keys_parse : map B.public_key_from_bytes public_keys ≡ map some keys
    pub accepted : B.verify_sig parsed points keys ≡ true

  module _ (signature : List ℕ) (ms keys : List (List ℕ))
      (a : AllLength public_key_bytes keys) where
    -- The keys, cut again.
    cut_keys : chunks public_key_bytes (concat keys) ≡ keys
    cut_keys = chunks-concat public_key_bytes keys (omega arith) a

    whole_keys : length (concat keys) % public_key_bytes ≡ 0
    whole_keys = omega (arith, length-concat-AllLength public_key_bytes keys a)

    messages-Accepts :
        AcceptedMessages B signature (concat ms) (map length ms) (concat keys)
        → AcceptsMessages signature ms keys
    messages-Accepts acc =
        let joined =
          acc.messages_joined
          ∙ ap (λ n. take n (concat ms)) (sym (length-concat ms))
          ∙ take-length (concat ms) in
        let same = concat-injective acc.messages ms acc.messages_sizes joined in
        record {
          parsed = acc.parsed;
          keys = acc.keys;
          signature_parses = acc.signature_parses;
          keys_parse = sym (ap (map B.public_key_from_bytes) cut_keys) ∙ acc.keys_parse;
          accepted =
              sym (ap (λ m. B.verify_messages_sig acc.parsed m acc.keys) same) ∙ acc.accepted;
        }

    Accepts-messages :
        AcceptsMessages signature ms keys
        → AcceptedMessages B signature (concat ms) (map length ms) (concat keys)
    Accepts-messages acc = record {
      parsed = acc.parsed;
      messages = ms;
      keys = acc.keys;
      signature_parses = acc.signature_parses;
      messages_sizes = refl;
      messages_joined =
          sym (take-length (concat ms)) ∙ ap (λ n. take n (concat ms)) (length-concat ms);
      keys_length = whole_keys;
      keys_parse = ap (map B.public_key_from_bytes) cut_keys ∙ acc.keys_parse;
      accepted = acc.accepted;
    }

  -- Messages of fewer than 2^64 bytes together, and keys of 48 bytes: `HashVerify` returns, and returns
  -- true exactly if the signature and every key parse and the library accepts these messages, each
  -- with its own bounds, for the keys.
  pub hash_verify-AcceptsMessages :
      (signature : List ℕ) (ms keys : List (List ℕ))
      → AllLength public_key_bytes keys
      → length (concat ms) < usize_mod
      → ((b : Bool) × (hash_verify B signature ms keys ≡ returns b))
        × ((hash_verify B signature ms keys ≡ returns true) ↔ AcceptsMessages signature ms keys)
  hash_verify-AcceptsMessages signature ms keys a l =
      let fit = sizes_fit ms (omega (arith, length-concat ms)) in
      let flat = hash_verify_flat signature ms keys a l in
      let (exact, panicking) =
        hash_verify_iff B signature (concat ms) (map length ms) (concat keys) l fit.1 in
      (
        elim (Unwind-cases (hash_verify B signature ms keys)) [
          | inl (b, e) ↦ (b, e)
          | inr (p, e) ↦ absurd (omega (arith, (panicking.0 (p, sym flat ∙ e)).1, length-concat ms))
        ],
        (
          λ h. messages-Accepts signature ms keys a (exact.0 (sym flat ∙ h)),
          λ acc. flat ∙ exact.1 (Accepts-messages signature ms keys a acc),
        ),
      )

  module _ (signature : List ℕ) (digests keys : List (List ℕ)) (d : AllLength digest_bytes digests)
      (a : AllLength public_key_bytes keys) where
    cut_digests : chunks digest_bytes (concat digests) ≡ digests
    cut_digests = chunks-concat digest_bytes digests (omega arith) d

    digests-Accepts :
        Accepted B signature (concat digests) (concat keys) → AcceptsDigests signature digests keys
    digests-Accepts acc = record {
      parsed = acc.parsed;
      points = acc.points;
      keys = acc.keys;
      same_count = omega (
        arith,
        acc.digests_length,
        acc.keys_length,
        length-concat-AllLength digest_bytes digests d,
        length-concat-AllLength public_key_bytes keys a,
      );
      signature_parses = acc.signature_parses;
      digests_decode = sym (ap (map B.from_compressed) cut_digests) ∙ acc.digests_decode;
      keys_parse =
          sym (ap (map B.public_key_from_bytes) (cut_keys signature digests keys a))
          ∙ acc.keys_parse;
      accepted = acc.accepted;
    }

    Accepts-digests :
        AcceptsDigests signature digests keys → Accepted B signature (concat digests) (concat keys)
    Accepts-digests acc = record {
      parsed = acc.parsed;
      points = acc.points;
      keys = acc.keys;
      count = length keys;
      signature_parses = acc.signature_parses;
      digests_length =
          omega (arith, acc.same_count, length-concat-AllLength digest_bytes digests d);
      keys_length = length-concat-AllLength public_key_bytes keys a;
      digests_decode = ap (map B.from_compressed) cut_digests ∙ acc.digests_decode;
      keys_parse =
          ap (map B.public_key_from_bytes) (cut_keys signature digests keys a) ∙ acc.keys_parse;
      accepted = acc.accepted;
    }

  -- Digests of 96 bytes and keys of 48 bytes: `Verify` returns, and returns true exactly if there are
  -- as many digests as keys, the signature, every digest and every key parse, and the library accepts
  -- the signature for these digests and keys.
  pub verify-AcceptsDigests :
      (signature : List ℕ) (digests keys : List (List ℕ))
      → AllLength digest_bytes digests
      → AllLength public_key_bytes keys
      → ((b : Bool) × (verify B signature digests keys ≡ returns b))
        × ((verify B signature digests keys ≡ returns true) ↔ AcceptsDigests signature digests keys)
  verify-AcceptsDigests signature digests keys d a =
      let flat = verify_flat signature digests keys d a in
      let ((b, e), exact) = verify_iff B signature (concat digests) (concat keys) in
      (
        (b, flat ∙ e),
        (
          λ h. digests-Accepts signature digests keys d a (exact.0 (sym flat ∙ h)),
          λ acc. flat ∙ exact.1 (Accepts-digests signature digests keys d a acc),
        ),
      )
