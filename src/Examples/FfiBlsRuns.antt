-- ===== src/Examples/FfiBlsRuns.antt =====
-- The Go functions on signatures, over a small lawful library.
use ffi_demo.Base.{ℕ, ◌≡◌, refl, ◌↔◌, Bool, true, some, List, [], ◌∷◌, map, arith}
use ffi_demo.Base.Effect.{returns}
use ffi_demo.Bls as Rust
use ffi_demo.Ffi.Bls.{
  hash, verify, hash_verify, aggregate, private_key_sign, private_key_public_key,
}
use ffi_demo.Ffi.Bls.Laws.{
  AcceptsMessages, AcceptsDigests, hash_verify-AcceptsMessages, verify-AcceptsDigests,
}
use ffi_demo.Ffi.Bls.Keys.{
  Signer, Signs, signature_of, public_key_of, digest_of, message_of, aggregate-verify,
}
use ffi_demo.Examples.Concrete.{padded, bls, bls-IsLawful}

abbrev two_messages : List (List ℕ)
two_messages = (1 ∷ 2 ∷ []) ∷ (6 ∷ []) ∷ []

abbrev two_keys : List (List ℕ)
two_keys = padded 47 4 ∷ padded 47 5 ∷ []

abbrev two_digests : List (List ℕ)
two_digests = padded 95 3 ∷ padded 95 6 ∷ []

hash_verify-AcceptsMessages_example :
    ((b : Bool) × (hash_verify bls (padded 95 18) two_messages two_keys ≡ returns b))
    × ((hash_verify bls (padded 95 18) two_messages two_keys ≡ returns true)
        ↔ AcceptsMessages bls (padded 95 18) two_messages two_keys)
hash_verify-AcceptsMessages_example =
    hash_verify-AcceptsMessages bls (padded 95 18) two_messages two_keys (refl, (refl, tt))
      (omega arith)

verify-AcceptsDigests_example :
    ((b : Bool) × (verify bls (padded 95 18) two_digests two_keys ≡ returns b))
    × ((verify bls (padded 95 18) two_digests two_keys ≡ returns true)
        ↔ AcceptsDigests bls (padded 95 18) two_digests two_keys)
verify-AcceptsDigests_example =
    verify-AcceptsDigests bls (padded 95 18) two_digests two_keys (refl, (refl, tt))
      (refl, (refl, tt))

abbrev signers : List (Signer bls)
signers =
    record {
      key = 4;
      message = 1 ∷ 2 ∷ [];
      signature = padded 95 7;
      public_key = padded 47 4;
      digest = padded 95 3;
    }
    ∷ record {
      key = 5;
      message = 6 ∷ [];
      signature = padded 95 11;
      public_key = padded 47 5;
      digest = padded 95 6;
    }
    ∷ []

signers-Signs : Signs bls signers
unfolding private_key_sign private_key_public_key hash Rust.private_key_sign
    Rust.private_key_public_key Rust.hash
signers-Signs = (refl, refl, refl, (refl, refl, refl, tt))

aggregate-verify_example :
    (bytes : List ℕ) × (aggregate bls (map (signature_of bls) signers) ≡ returns (some bytes))
    × (verify bls bytes (map (digest_of bls) signers) (map (public_key_of bls) signers)
        ≡ returns true)
    × (hash_verify bls bytes (map (message_of bls) signers) (map (public_key_of bls) signers)
        ≡ returns true)
aggregate-verify_example =
    aggregate-verify bls bls-IsLawful signers 18 signers-Signs refl (omega arith)
