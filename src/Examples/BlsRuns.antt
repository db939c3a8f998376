-- ===== src/Examples/BlsRuns.antt =====
-- Signatures of a small lawful library.
use ffi_demo.Base.{sum, ℕ, ◌<◌, ◌≡◌, ◌↔◌, Bool, true, some, List, [], ◌∷◌, arith}
use ffi_demo.Base.Effect.{Payload, returns, panics}
use ffi_demo.Bls.{verify, hash_verify}
use ffi_demo.Bls.HashVerify.{AcceptedMessages, hash_verify_iff}
use ffi_demo.Bls.Verify.{Accepted, verify_iff}
use ffi_demo.Examples.Concrete.{padded, bls}

abbrev three_bytes : List ℕ
three_bytes = 1 ∷ 2 ∷ 3 ∷ []

hash_verify_iff_example :
    ((hash_verify bls (padded 95 10) three_bytes (1 ∷ 2 ∷ []) (padded 47 4) ≡ returns true)
      ↔ AcceptedMessages bls (padded 95 10) three_bytes (1 ∷ 2 ∷ []) (padded 47 4))
    × (((p : Payload) × (hash_verify bls (padded 95 10) three_bytes (1 ∷ 2 ∷ []) (padded 47 4)
            ≡ panics p))
        ↔ (((s : ℕ) × (some 10 ≡ some s)) × (3 < sum (1 ∷ 2 ∷ []))))
hash_verify_iff_example =
    hash_verify_iff bls (padded 95 10) three_bytes (1 ∷ 2 ∷ []) (padded 47 4) (omega arith)
      (omega arith, (omega arith, tt))

verify_iff_example :
    ((b : Bool) × (verify bls (padded 95 12) (padded 95 8) (padded 47 4) ≡ returns b))
    × ((verify bls (padded 95 12) (padded 95 8) (padded 47 4) ≡ returns true)
        ↔ Accepted bls (padded 95 12) (padded 95 8) (padded 47 4))
verify_iff_example = verify_iff bls (padded 95 12) (padded 95 8) (padded 47 4)
