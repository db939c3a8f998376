-- ===== src/Proofs/Aggregate.antt =====
-- rust/src/proofs/api.rs: aggregation of seal proofs. The inputs of a verification are converted in
-- parallel, so what `try_reduce` returns is a relation, not a function.
pub mod Schedules
pub mod Verdict
use ffi_demo.Base.{ℕ, Bool, ◌≡◌, List, [], ◌∷◌, ◌++◌, map}
use ffi_demo.Base.Effect.{
  Error, Result, ok, err, Payload, Unwind, returns, panics, Exec, ◌>>=◌, ◌>>◌,
}
use ffi_demo.Util.World.{World, outside}
use ffi_demo.Util.Response.{list_default, Response}
use ffi_demo.Util.CatchPanic.{catch_panic_response}
use ffi_demo.Proofs.Upstream.{ApiRegisteredSealProof, ApiRegisteredAggregationProof}
use ffi_demo.Proofs.Types.{
  Bytes32, RegisteredSealProof, RegisteredAggregationProof, AggregationInputs, seal_into_api,
  aggregation_into_api,
}
use ffi_demo.Proofs.Post.{LibraryCall, bool_default}

-- `filecoin_proofs_api::seal`, with `blstrs::Scalar` as `Fr`
pub record AggregateApi (E : Type 0) : Type 1 where
  pub Fr : Type 0
  pub aggregate_seal_commit_proofs :
      ApiRegisteredSealProof
      → ApiRegisteredAggregationProof
      → List Bytes32
      → List Bytes32
      → List (List ℕ)
      → LibraryCall E (List ℕ)
  pub get_seal_inputs :
      ApiRegisteredSealProof
      → Bytes32
      → Bytes32
      → Bytes32
      → ℕ
      → Bytes32
      → Bytes32
      → Unwind (Result (List (List Fr)))
  pub verify_aggregate_seal_commit_proofs :
      ApiRegisteredSealProof
      → ApiRegisteredAggregationProof
      → List ℕ
      → List Bytes32
      → List Bytes32
      → List (List Fr)
      → LibraryCall E Bool

-- What `par_iter().map(f).try_reduce(identity, op)` may end with, for an `op` that always returns:
-- the items are cut into pieces in any way, and the results of neighbours are joined. An item that
-- fails or panics may stop the rest, and any of those that do decides the outcome.
pub data TryReduce {A V : Type 0} (f : A → Unwind (Result V)) (identity : V) (op : V → V → V)
    : List A → Unwind (Result V) → Type 0 where
  nothing :
      {l : List A} {r : Unwind (Result V)}
      → l ≡ []
      → r ≡ returns (ok identity)
      → TryReduce f identity op l r
  one :
      {l : List A} {r : Unwind (Result V)} (x : A) (v : V)
      → l ≡ x ∷ []
      → f x ≡ returns (ok v)
      → r ≡ returns (ok (op identity v))
      → TryReduce f identity op l r
  join :
      {l : List A} {r : Unwind (Result V)} (xs ys : List A) (a b : V)
      → l ≡ xs ++ ys
      → TryReduce f identity op xs (returns (ok a))
      → TryReduce f identity op ys (returns (ok b))
      → r ≡ returns (ok (op a b))
      → TryReduce f identity op l r
  fails :
      {l : List A} {r : Unwind (Result V)} (xs ys : List A) (x : A) (e : Error)
      → l ≡ xs ++ (x ∷ ys)
      → f x ≡ returns (err e)
      → r ≡ returns (err e)
      → TryReduce f identity op l r
  unwinds :
      {l : List A} {r : Unwind (Result V)} (xs ys : List A) (x : A) (p : Payload)
      → l ≡ xs ++ (x ∷ ys)
      → f x ≡ panics p
      → r ≡ panics p
      → TryReduce f identity op l r

module _ {E : Type 0} (api : AggregateApi E) where
  unfoldable pub aggregate_seal_proofs :
      RegisteredSealProof
      → RegisteredAggregationProof
      → List Bytes32
      → List Bytes32
      → List (List ℕ)
      → World E
      → Response (List ℕ) × World E
  unfolding catch_panic_response
  aggregate_seal_proofs registered_proof registered_aggregation comm_rs seeds
        seal_commit_responses =
      catch_panic_response "aggregate_seal_proofs" (
        outside (
          api.aggregate_seal_commit_proofs (seal_into_api registered_proof)
            (aggregation_into_api registered_aggregation) comm_rs seeds seal_commit_responses))

  unfoldable pub convert_aggregation_inputs :
      RegisteredSealProof → Bytes32 → AggregationInputs → Unwind (Result (List (List api.Fr)))
  convert_aggregation_inputs registered_proof prover_id input =
      api.get_seal_inputs (seal_into_api registered_proof) input.comm_r input.comm_d prover_id
        input.sector_id input.ticket input.seed

  -- What the parallel conversion of the inputs may end with.
  abbrev pub Converted :
      RegisteredSealProof
      → Bytes32
      → List AggregationInputs
      → Unwind (Result (List (List api.Fr)))
      → Type 0
  Converted registered_proof prover_id =
      TryReduce (convert_aggregation_inputs registered_proof prover_id) []
        (λ acc current. acc ++ current)

  -- The callback after the conversion has ended with `inputs`.
  unfoldable pub verify_with :
      RegisteredSealProof
      → RegisteredAggregationProof
      → List ℕ
      → List AggregationInputs
      → Unwind (Result (List (List api.Fr)))
      → World E
      → Response Bool × World E
  unfolding catch_panic_response
  verify_with registered_proof registered_aggregation proof commit_inputs converted =
      catch_panic_response "verify_aggregate_seal_proof" (
        (λ w. (converted, w)) >>= λ inputs. outside (
          api.verify_aggregate_seal_commit_proofs (seal_into_api registered_proof)
            (aggregation_into_api registered_aggregation) proof
            (map (λ input. input.comm_r) commit_inputs) (map (λ input. input.seed) commit_inputs)
            inputs))

  -- The ways in which a call may go: one for each end of the conversion.
  pub data VerifyAggregateSealProof (registered_proof : RegisteredSealProof)
      (registered_aggregation : RegisteredAggregationProof) (prover_id : Bytes32) (proof : List ℕ)
      (commit_inputs : List AggregationInputs) (w : World E) (out : Response Bool × World E)
      : Type 0 where
    ran :
        (converted : Unwind (Result (List (List api.Fr))))
        → Converted registered_proof prover_id commit_inputs converted
        → out ≡ verify_with registered_proof registered_aggregation proof commit_inputs converted w
        → VerifyAggregateSealProof registered_proof registered_aggregation prover_id proof
            commit_inputs w out
