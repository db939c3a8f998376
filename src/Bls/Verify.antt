-- ===== src/Bls/Verify.antt =====
-- When `verify` accepts.
use ffi_demo.Base.{
  ℕ, ◌*◌, ◌/◌, ◌%◌, ◌≡◌, refl, ◌↔◌, Bool, true, false, Option, some, List, [], ◌∷◌, map, length,
  ◌==◌, Option-cases, inl, inr, if◌then◌else◌, arith,
}
use ffi_demo.Base.Chunks.{chunks, AllLength, AllLength-chunks}
use ffi_demo.Base.Effect.{returns}
use ffi_demo.Bls.{
  public_key_bytes, digest_bytes, BlsApi, try_ffi, collect, decode_digests, after_digests, verify,
}

module _ {ℓ} {A B : Type ℓ} (f : A → Option B) where
  pub collect-some : (xs : List A) (ys : List B) → collect f xs ≡ some ys → map f xs ≡ map some ys
  unfolding collect
  collect-some [] [] h = refl
  collect-some [] (y ∷ ys) h = absurd (cc)
  collect-some (x ∷ xs) [] h = ground arith
  collect-some (x ∷ xs) (y ∷ ys) h = ground (arith, collect-some xs ys)

  pub some-collect : (xs : List A) (ys : List B) → map f xs ≡ map some ys → collect f xs ≡ some ys
  unfolding collect
  some-collect [] [] h = refl
  some-collect [] (y ∷ ys) h = absurd (cc)
  some-collect (x ∷ xs) [] h = absurd (cc)
  some-collect (x ∷ xs) (y ∷ ys) h = ground (arith, some-collect xs ys)

module _ (B : BlsApi) where
  -- pieces of the right length are decoded without a panic
  decode_digests-collect :
      (items : List (List ℕ))
      → AllLength digest_bytes items
      → decode_digests B items ≡ returns (collect B.from_compressed items)
  unfolding decode_digests collect
  decode_digests-collect [] h = refl
  decode_digests-collect (item ∷ items) h = ground (arith, decode_digests-collect items)

  decode_digests_whole :
      (digests : List ℕ)
      → length digests % digest_bytes ≡ 0
      → decode_digests B (chunks digest_bytes digests)
        ≡ returns (collect B.from_compressed (chunks digest_bytes digests))
  decode_digests_whole digests h =
      decode_digests-collect _
        (AllLength-chunks digest_bytes (length digests / digest_bytes) digests (omega arith)
          (omega arith)).0

  -- What makes a signature accepted.
  pub record Accepted (signature digests public_keys : List ℕ) : Type 0 where
    pub parsed : B.Signature
    pub points : List B.Digest
    pub keys : List B.PublicKey
    pub count : ℕ
    pub signature_parses : B.signature_from_bytes signature ≡ some parsed
    pub digests_length : length digests ≡ count * digest_bytes
    pub keys_length : length public_keys ≡ count * public_key_bytes
    pub digests_decode : map B.from_compressed (chunks digest_bytes digests) ≡ map some points
    pub keys_parse :
        map B.public_key_from_bytes (chunks public_key_bytes public_keys) ≡ map some keys
    pub accepted : B.verify_sig parsed points keys ≡ true

  -- The guards of `verify`, as one test.
  abbrev pub lengths_agree : List ℕ → List ℕ → Bool
  lengths_agree digests public_keys =
      if length digests % digest_bytes == 0
      then if length public_keys % public_key_bytes == 0
        then length digests / digest_bytes == length public_keys / public_key_bytes
        else false
      else false

  -- `verify` past its guards
  verify-guards :
      (signature digests public_keys : List ℕ)
      → verify B signature digests public_keys
        ≡ try_ffi (B.signature_from_bytes signature) (returns false) λ s.
          if lengths_agree digests public_keys
          then after_digests B s public_keys
              (returns (collect B.from_compressed (chunks digest_bytes digests)))
          else returns false
  unfolding verify
  verify-guards signature digests public_keys = ground (arith, decode_digests_whole digests)

  -- The answer, if no step panics.
  abbrev pub verdict : List ℕ → List ℕ → List ℕ → Bool
  verdict signature digests public_keys = try_ffi (B.signature_from_bytes signature) false λ s.
      if lengths_agree digests public_keys
      then (try_ffi (collect B.from_compressed (chunks digest_bytes digests)) false λ ds.
          try_ffi (collect B.public_key_from_bytes (chunks public_key_bytes public_keys)) false
            λ ks. B.verify_sig s ds ks)
      else false

  verify-verdict :
      (signature digests public_keys : List ℕ)
      → verify B signature digests public_keys ≡ returns (verdict signature digests public_keys)
  unfolding after_digests
  verify-verdict signature digests public_keys =
      rw (verify-guards signature digests public_keys) (ground arith)

  verdict-parts :
      (signature digests public_keys : List ℕ)
      → verdict signature digests public_keys ≡ true
      → (s : B.Signature) × (ds : List B.Digest) × (ks : List B.PublicKey) × (B.signature_from_bytes
            signature
          ≡ some s)
        × (lengths_agree digests public_keys ≡ true)
        × (collect B.from_compressed (chunks digest_bytes digests) ≡ some ds)
        × (collect B.public_key_from_bytes (chunks public_key_bytes public_keys) ≡ some ks)
        × (B.verify_sig s ds ks ≡ true)
  verdict-parts signature digests public_keys h =
      elim (Option-cases (B.signature_from_bytes signature)) [
        | inl bad ↦ absurd (ground arith)
        | inr (s, es) ↦
            elim (Option-cases (collect B.from_compressed (chunks digest_bytes digests))) [
              | inl bad ↦ absurd (ground arith)
              | inr (ds, ed) ↦
                  elim (Option-cases
                    (collect B.public_key_from_bytes (chunks public_key_bytes public_keys))) [
                      | inl bad ↦ absurd (ground arith)
                      | inr (ks, ek) ↦ (s, ds, ks, es, ground arith, ed, ek, ground arith)
                    ]
            ]
      ]

  verify-Accepted :
      (signature digests public_keys : List ℕ)
      → verify B signature digests public_keys ≡ returns true
      → Accepted signature digests public_keys
  verify-Accepted signature digests public_keys h =
      let (s, ds, ks, es, agree, ed, ek, v) =
        verdict-parts signature digests public_keys
          (ground (arith, verify-verdict signature digests public_keys)) in
      record {
        parsed = s;
        points = ds;
        keys = ks;
        count = length digests / digest_bytes;
        signature_parses = es;
        digests_length = ground arith;
        keys_length = ground arith;
        digests_decode = collect-some B.from_compressed _ ds ed;
        keys_parse = collect-some B.public_key_from_bytes _ ks ek;
        accepted = v;
      }

  pub Accepted-verify :
      (signature digests public_keys : List ℕ)
      → Accepted signature digests public_keys
      → verify B signature digests public_keys ≡ returns true
  unfolding after_digests
  Accepted-verify signature digests public_keys a =
      rw (verify-guards signature digests public_keys) (
        ground (
          arith,
          a.signature_parses,
          some-collect B.from_compressed (chunks digest_bytes digests) a.points a.digests_decode,
          some-collect B.public_key_from_bytes (chunks public_key_bytes public_keys) a.keys
              a.keys_parse,
        ))

  -- `verify` always returns, and returns true exactly if the signature parses, there are equally many
  -- whole digests and keys, all of them parse, and the library accepts what they are.
  pub verify_iff :
      (signature digests public_keys : List ℕ)
      → ((b : Bool) × (verify B signature digests public_keys ≡ returns b))
        × ((verify B signature digests public_keys ≡ returns true)
            ↔ Accepted signature digests public_keys)
  verify_iff signature digests public_keys = (
    (verdict signature digests public_keys, verify-verdict signature digests public_keys),
    (verify-Accepted signature digests public_keys, Accepted-verify signature digests public_keys),
  )
