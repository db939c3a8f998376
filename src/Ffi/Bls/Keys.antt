-- ===== src/Ffi/Bls/Keys.antt =====
-- Signing by several keys, aggregation and verification, over bls.go.
use mathlib.Core.Path.{ap₂}
use ffi_demo.Base.{
  ℕ, ◌<◌, ◌≡◌, refl, sym, ap, ◌∙◌, Bool, true, false, Option, some, List, [], ◌∷◌, map, concat,
  length, length-map, arith,
}
use ffi_demo.Base.Chunks.{AllLength}
use ffi_demo.Base.Effect.{returns}
use ffi_demo.Bls.{signature_bytes, public_key_bytes, digest_bytes, usize_mod, BlsApi}
use ffi_demo.Bls.Keys.{IsLawful, signed, all_signatures, aggregate-signatures}
use ffi_demo.Ffi.Slices.Laws.{flatten-concat}
use ffi_demo.Ffi.Bls.{
  hash, verify, hash_verify, aggregate, private_key_sign, private_key_public_key,
}
use ffi_demo.Ffi.Bls.Laws.{
  AcceptsMessages, AcceptsDigests, hash_verify-AcceptsMessages, verify-AcceptsDigests,
}

map-some-injective : {A : Type 0} (xs ys : List A) → map some xs ≡ map some ys → xs ≡ ys
map-some-injective [] [] h = refl
map-some-injective [] (y ∷ ys) h = absurd (cc)
map-some-injective (x ∷ xs) [] h = absurd (cc)
map-some-injective (x ∷ xs) (y ∷ ys) h = ground (arith, map-some-injective xs ys)

same_verdict : (b v : Bool) → (b ≡ true → v ≡ true) → (v ≡ true → b ≡ true) → b ≡ v
same_verdict true v f g = sym (f refl)
same_verdict false true f g = g refl
same_verdict false false f g = refl

module _ {A : Type 0} (to : A → List ℕ) where
  AllLength-map : (n : ℕ) (xs : List A) → ((x : A) → length (to x) ≡ n) → AllLength n (map to xs)
  AllLength-map n [] h = tt
  AllLength-map n (x ∷ xs) h = (h x, AllLength-map n xs h)

  map_decodes :
      (from : List ℕ → Option A) (xs : List A)
      → ((x : A) → from (to x) ≡ some x)
      → map from (map to xs) ≡ map some xs
  map_decodes from [] h = refl
  map_decodes from (x ∷ xs) h = ap₂ ◌∷◌ (h x) (map_decodes from xs h)

module _ (B : BlsApi) where
  -- A private key of the library, the message it is to sign, and bytes that Go code has of them.
  pub record Signer : Type 0 where
    pub key : B.PrivateKey
    pub message : List ℕ
    pub signature : List ℕ
    pub public_key : List ℕ
    pub digest : List ℕ

  -- The bytes are what `PrivateKeySign`, `PrivateKeyPublicKey` and `Hash` return.
  abbrev pub Signs : List Signer → Type 0
  Signs [] = Unit
  Signs (s ∷ signers) =
      (private_key_sign B (B.private_key_to_bytes s.key) s.message ≡ returns (some s.signature))
      × (private_key_public_key B (B.private_key_to_bytes s.key) ≡ returns (some s.public_key))
      × (hash B s.message ≡ returns s.digest)
      × Signs signers

  abbrev pub signature_of : Signer → List ℕ
  signature_of s = s.signature

  abbrev pub public_key_of : Signer → List ℕ
  public_key_of s = s.public_key

  abbrev pub digest_of : Signer → List ℕ
  digest_of s = s.digest

  abbrev pub message_of : Signer → List ℕ
  message_of s = s.message

  abbrev pub library_signature : Signer → B.Signature
  library_signature s = B.sign s.key s.message

  abbrev pub library_key : Signer → B.PublicKey
  library_key s = B.public_key s.key

  abbrev pub library_digest : Signer → B.Digest
  library_digest s = B.hash_sig s.message

  module _ (L : IsLawful B) where
    encoded_one :
        (s : Signer)
        → private_key_sign B (B.private_key_to_bytes s.key) s.message ≡ returns (some s.signature)
        → private_key_public_key B (B.private_key_to_bytes s.key) ≡ returns (some s.public_key)
        → hash B s.message ≡ returns s.digest
        → (s.signature ≡ B.signature_to_bytes (library_signature s))
          × (s.public_key ≡ B.public_key_to_bytes (library_key s))
          × (s.digest ≡ B.digest_to_bytes (library_digest s))
    unfolding private_key_sign private_key_public_key hash
    encoded_one s es ep ed =
        let (rs, rp, rd) =
          signed B L s.key (B.private_key_to_bytes s.key) s.message (L.private_key_decodes s.key) in
        (ground arith, ground arith, ground arith)

    -- What they return are the library's encodings.
    encoded :
        (signers : List Signer)
        → Signs signers
        → (map signature_of signers ≡ map B.signature_to_bytes (map library_signature signers))
          × (map public_key_of signers ≡ map B.public_key_to_bytes (map library_key signers))
          × (map digest_of signers ≡ map B.digest_to_bytes (map library_digest signers))
    encoded [] h = (refl, refl, refl)
    encoded (s ∷ signers) (es, ep, ed, h) =
        let (a, b, c) = encoded_one s es ep ed in
        let (ss, ps, ds) = encoded signers h in (ap₂ ◌∷◌ a ss, ap₂ ◌∷◌ b ps, ap₂ ◌∷◌ c ds)

    module _ (agg : B.Signature) (ds : List B.Digest) (ks : List B.PublicKey) where
      abbrev bytes : List ℕ
      bytes = B.signature_to_bytes agg

      keys_length : AllLength public_key_bytes (map B.public_key_to_bytes ks)
      keys_length = AllLength-map B.public_key_to_bytes public_key_bytes ks L.public_key_length

      digests_length : AllLength digest_bytes (map B.digest_to_bytes ds)
      digests_length = AllLength-map B.digest_to_bytes digest_bytes ds L.digest_length

      parsed_same : (s : B.Signature) → B.signature_from_bytes bytes ≡ some s → s ≡ agg
      parsed_same s h = ground (arith, L.signature_decodes agg)

      keys_same :
          (ks' : List B.PublicKey)
          → map B.public_key_from_bytes (map B.public_key_to_bytes ks) ≡ map some ks'
          → ks' ≡ ks
      keys_same ks' h = map-some-injective ks' ks (
          sym h ∙ map_decodes B.public_key_to_bytes B.public_key_from_bytes ks L.public_key_decodes)

      points_same :
          (ds' : List B.Digest)
          → map B.from_compressed (map B.digest_to_bytes ds) ≡ map some ds'
          → ds' ≡ ds
      points_same ds' h =
          map-some-injective ds' ds
            (sym h ∙ map_decodes B.digest_to_bytes B.from_compressed ds L.digest_decodes)

      accepts_digests :
          AcceptsDigests B bytes (map B.digest_to_bytes ds) (map B.public_key_to_bytes ks)
          → B.verify_sig agg ds ks ≡ true
      accepts_digests acc =
          rw
            (
              sym (parsed_same acc.parsed acc.signature_parses),
              sym (points_same acc.points acc.digests_decode),
              sym (keys_same acc.keys acc.keys_parse),
            )
            acc.accepted

      accepts_messages :
          (ms : List (List ℕ))
          → AcceptsMessages B bytes ms (map B.public_key_to_bytes ks)
          → B.verify_messages_sig agg ms ks ≡ true
      accepts_messages ms acc =
          rw
            (
              sym (parsed_same acc.parsed acc.signature_parses),
              sym (keys_same acc.keys acc.keys_parse),
            )
            acc.accepted

      -- `Verify` of encodings is the library's answer.
      verify_encoded :
          length ds ≡ length ks
          → verify B bytes (map B.digest_to_bytes ds) (map B.public_key_to_bytes ks)
            ≡ returns (B.verify_sig agg ds ks)
      verify_encoded n =
          let ((b, e), (into, back)) =
            verify-AcceptsDigests B bytes _ _ digests_length keys_length in
          let forth : b ≡ true → B.verify_sig agg ds ks ≡ true =
            λ h. accepts_digests (into (e ∙ ap returns h)) in
          let accepts : B.verify_sig agg ds ks ≡ true → b ≡ true = λ h.
            let ret =
              sym e
              ∙ back (record {
                parsed = agg;
                points = ds;
                keys = ks;
                same_count =
                    length-map B.digest_to_bytes ds ∙ n ∙ sym (length-map B.public_key_to_bytes ks);
                signature_parses = L.signature_decodes agg;
                digests_decode =
                    map_decodes B.digest_to_bytes B.from_compressed ds L.digest_decodes;
                keys_parse =
                    map_decodes B.public_key_to_bytes B.public_key_from_bytes ks
                      L.public_key_decodes;
                accepted = h;
              }) in
            ground arith in
          e ∙ ap returns (same_verdict b (B.verify_sig agg ds ks) forth accepts)

      hash_verify_encoded :
          (ms : List (List ℕ))
          → length (concat ms) < usize_mod
          → hash_verify B bytes ms (map B.public_key_to_bytes ks)
            ≡ returns (B.verify_messages_sig agg ms ks)
      hash_verify_encoded ms l =
          let ((b, e), (into, back)) = hash_verify-AcceptsMessages B bytes ms _ keys_length l in
          let forth : b ≡ true → B.verify_messages_sig agg ms ks ≡ true =
            λ h. accepts_messages ms (into (e ∙ ap returns h)) in
          let accepts : B.verify_messages_sig agg ms ks ≡ true → b ≡ true = λ h.
            let ret =
              sym e
              ∙ back (record {
                parsed = agg;
                keys = ks;
                signature_parses = L.signature_decodes agg;
                keys_parse =
                    map_decodes B.public_key_to_bytes B.public_key_from_bytes ks
                      L.public_key_decodes;
                accepted = h;
              }) in
            ground arith in
          e ∙ ap returns (same_verdict b (B.verify_messages_sig agg ms ks) forth accepts)

    aggregate_encoded :
        (signatures : List B.Signature) (agg : B.Signature)
        → B.aggregate_sig signatures ≡ some agg
        → aggregate B (map B.signature_to_bytes signatures)
          ≡ returns (some (B.signature_to_bytes agg))
    unfolding aggregate
    aggregate_encoded signatures agg h =
        let all = all_signatures B L signatures in
        rw (flatten-concat signature_bytes _ all, aggregate-signatures B L signatures, h) refl

    -- With a library whose encodings have their sizes and decode: keys sign a message each, by
    -- `PrivateKeySign`, and the library aggregates what these signatures are. Then
    -- `Aggregate` of the signatures returns bytes, and for these bytes `Verify`, with the signers'
    -- `Hash`es and `PrivateKeyPublicKey`s, and `HashVerify`, with messages of fewer than 2^64 bytes
    -- together, return what the library answers for the aggregate, these messages and these keys.
    pub aggregate-verify :
        (signers : List Signer) (agg : B.Signature)
        → Signs signers
        → B.aggregate_sig (map library_signature signers) ≡ some agg
        → length (concat (map message_of signers)) < usize_mod
        → (bytes : List ℕ) × (aggregate B (map signature_of signers) ≡ returns (some bytes))
          × (verify B bytes (map digest_of signers) (map public_key_of signers)
              ≡ returns (B.verify_sig agg (map library_digest signers) (map library_key signers)))
          × (hash_verify B bytes (map message_of signers) (map public_key_of signers)
              ≡ returns
                  (B.verify_messages_sig agg (map message_of signers) (map library_key signers)))
    aggregate-verify signers agg h made l =
        let (es, ep, ed) = encoded signers h in
        let ks = map library_key signers in
        let ds = map library_digest signers in
        let count = length-map library_digest signers ∙ sym (length-map library_key signers) in
        (
          B.signature_to_bytes agg,
          rw es (aggregate_encoded (map library_signature signers) agg made),
          rw (ed, ep) (verify_encoded agg ds ks count),
          rw ep (hash_verify_encoded agg ds ks (map message_of signers) l),
        )
