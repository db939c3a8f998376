-- ===== src/Bls/HashVerify.antt =====
-- When `hash_verify` of rust/src/bls/api.rs accepts and when it panics.
use mathlib.Core.Path.{ap₂}
use ffi_demo.Base.{
  ℕ, ◌%◌, ◌<◌, ◌≡◌, refl, sym, ap, ◌∙◌, ◌↔◌, true, some, List, [], ◌∷◌, map, concat, sum, length,
  take, drop, length-append, length-take, take-length-append, drop-length-append, Option-cases, inl,
  inr, arith,
}
use ffi_demo.Base.Chunks.{chunks}
use ffi_demo.Base.Effect.{Payload, returns, panics}
use ffi_demo.Bls.{
  public_key_bytes, usize_mod, BlsApi, collect, split_messages, after_split, hash_verify,
}
use ffi_demo.Bls.Slices.{AllUsize, split_messages_cuts}
use ffi_demo.Bls.Verify.{collect-some, some-collect}

pub length-concat : (ms : List (List ℕ)) → length (concat ms) ≡ sum (map length ms)
length-concat [] = refl
length-concat (m ∷ ms) = omega (arith, length-append m (concat ms), length-concat ms)

-- Pieces are known by their sizes and what they are joined.
pub concat-injective :
    (xs ys : List (List ℕ)) → map length xs ≡ map length ys → concat xs ≡ concat ys → xs ≡ ys
concat-injective [] [] l h = refl
concat-injective [] (y ∷ ys) l h = absurd (cc)
concat-injective (x ∷ xs) [] l h = absurd (cc)
concat-injective (x ∷ xs) (y ∷ ys) l h =
    let same : length x ≡ length y = ground arith in
    let first : x ≡ y =
      sym (take-length-append x (concat xs)) ∙ ap₂ take same h ∙ take-length-append y (concat ys) in
    let rest : concat xs ≡ concat ys =
      sym (drop-length-append x (concat xs)) ∙ ap₂ drop same h ∙ drop-length-append y (concat ys) in
    ap₂ ◌∷◌ first (concat-injective xs ys (ground arith) rest)

module _ (B : BlsApi) where
  -- What makes a signature of messages accepted.
  pub record AcceptedMessages (signature flattened : List ℕ) (sizes public_keys : List ℕ)
      : Type 0 where
    pub parsed : B.Signature
    pub messages : List (List ℕ)
    pub keys : List B.PublicKey
    pub signature_parses : B.signature_from_bytes signature ≡ some parsed
    pub messages_sizes : map length messages ≡ sizes
    pub messages_joined : concat messages ≡ take (sum sizes) flattened
    pub keys_length : length public_keys % public_key_bytes ≡ 0
    pub keys_parse :
        map B.public_key_from_bytes (chunks public_key_bytes public_keys) ≡ map some keys
    pub accepted : B.verify_messages_sig parsed messages keys ≡ true

  module _ (signature flattened sizes public_keys : List ℕ) where
    -- What is checked once the messages are cut.
    abbrev Checked : B.Signature → List (List ℕ) → Type 0
    Checked s ms =
        (ks : List B.PublicKey) × (length public_keys % public_key_bytes ≡ 0)
        × (map B.public_key_from_bytes (chunks public_key_bytes public_keys) ≡ map some ks)
        × (B.verify_messages_sig s ms ks ≡ true)

    after_split-Checked :
        (s : B.Signature) (ms : List (List ℕ))
        → after_split B s public_keys ms ≡ true
        → Checked s ms
    unfolding after_split
    after_split-Checked s ms h =
        elim (Option-cases
          (collect B.public_key_from_bytes (chunks public_key_bytes public_keys))) [
            | inl bad ↦ absurd (ground arith)
            | inr (ks, e) ↦
                (ks, ground arith, collect-some B.public_key_from_bytes _ ks e, ground arith)
          ]

    Checked-after_split :
        (s : B.Signature) (ms : List (List ℕ))
        → Checked s ms
        → after_split B s public_keys ms ≡ true
    unfolding after_split
    Checked-after_split s ms (ks, whole, e, ok) =
        ground
          (arith, some-collect B.public_key_from_bytes (chunks public_key_bytes public_keys) ks e)

    -- Messages of these sizes are what the loop returns.
    accepted-split :
        (ms : List (List ℕ))
        → length flattened < usize_mod
        → AllUsize sizes
        → map length ms ≡ sizes
        → concat ms ≡ take (sum sizes) flattened
        → split_messages 0 sizes flattened ≡ returns ms
    accepted-split ms l z m c = elim (split_messages_cuts 0 sizes flattened l z (omega arith)) [
      | inl (inside, (ms', e, joined, cut)) ↦
          e ∙ ap returns (concat-injective ms' ms (cut ∙ sym m) (joined ∙ sym c))
      | inr (more, (p, e)) ↦ absurd (
          omega (arith, length-concat ms, ap sum m, ap length c, length-take (sum sizes) flattened))
    ]

    split_Accepted :
        (s : B.Signature)
        → B.signature_from_bytes signature ≡ some s
        → length flattened < usize_mod
        → AllUsize sizes
        → hash_verify B signature flattened sizes public_keys ≡ returns true
        → AcceptedMessages signature flattened sizes public_keys
    unfolding hash_verify
    split_Accepted s es l z h = elim (split_messages_cuts 0 sizes flattened l z (omega arith)) [
      | inr (more, (p, e)) ↦ absurd (ground arith)
      | inl (inside, (ms, e, joined, cut)) ↦
          let (ks, whole, parse, ok) = after_split-Checked s ms (ground arith) in
          record {
            parsed = s;
            messages = ms;
            keys = ks;
            signature_parses = es;
            messages_sizes = cut;
            messages_joined = joined;
            keys_length = whole;
            keys_parse = parse;
            accepted = ok;
          }
    ]

    hash_verify-Accepted :
        length flattened < usize_mod
        → AllUsize sizes
        → hash_verify B signature flattened sizes public_keys ≡ returns true
        → AcceptedMessages signature flattened sizes public_keys
    unfolding hash_verify
    hash_verify-Accepted l z h = elim (Option-cases (B.signature_from_bytes signature)) [
      | inl bad ↦ absurd (ground arith)
      | inr (s, es) ↦ split_Accepted s es l z h
    ]

    Accepted-hash_verify :
        length flattened < usize_mod
        → AllUsize sizes
        → AcceptedMessages signature flattened sizes public_keys
        → hash_verify B signature flattened sizes public_keys ≡ returns true
    unfolding hash_verify
    Accepted-hash_verify l z a = ground (
      arith,
      a.signature_parses,
      accepted-split a.messages l z a.messages_sizes a.messages_joined,
      Checked-after_split a.parsed a.messages (a.keys, a.keys_length, a.keys_parse, a.accepted),
    )

    hash_verify-panics :
        length flattened < usize_mod
        → AllUsize sizes
        → ((p : Payload) × (hash_verify B signature flattened sizes public_keys ≡ panics p)) ↔ (
            ((s : B.Signature) × (B.signature_from_bytes signature ≡ some s))
            × (length flattened < sum sizes))
    unfolding hash_verify
    hash_verify-panics l z = (
      λ (p, h). elim (Option-cases (B.signature_from_bytes signature)) [
        | inl bad ↦ absurd (ground arith)
        | inr (s, es) ↦ elim (split_messages_cuts 0 sizes flattened l z (omega arith)) [
          | inl (inside, (ms, e, joined, cut)) ↦ absurd (ground arith)
          | inr (more, (p', e)) ↦ ((s, es), omega arith)
        ]
      ],
      λ ((s, es), over). elim (split_messages_cuts 0 sizes flattened l z (omega arith)) [
        | inl (inside, rest) ↦ absurd (omega arith)
        | inr (more, (p, e)) ↦ (p, ground arith)
      ],
    )

  -- For fewer than 2^64 bytes and sizes that are each a `usize`: `hash_verify` returns true exactly if the
  -- signature parses, the bytes begin with messages of these sizes, there are only whole keys, which
  -- parse, and the library accepts the messages. It panics exactly if the signature parses and the
  -- sizes add up to more than the bytes.
  pub hash_verify_iff :
      (signature flattened sizes public_keys : List ℕ)
      → length flattened < usize_mod
      → AllUsize sizes
      → ((hash_verify B signature flattened sizes public_keys ≡ returns true)
          ↔ AcceptedMessages signature flattened sizes public_keys)
        × (((p : Payload) × (hash_verify B signature flattened sizes public_keys ≡ panics p)) ↔ (
            ((s : B.Signature) × (B.signature_from_bytes signature ≡ some s))
            × (length flattened < sum sizes)))
  hash_verify_iff signature flattened sizes public_keys l z = (
    (
      hash_verify-Accepted signature flattened sizes public_keys l z,
      Accepted-hash_verify signature flattened sizes public_keys l z,
    ),
    hash_verify-panics signature flattened sizes public_keys l z,
  )
