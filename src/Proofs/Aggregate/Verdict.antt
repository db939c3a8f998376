-- ===== src/Proofs/Aggregate/Verdict.antt =====
-- The answer of `verify_aggregate_seal_proof` (rust/src/proofs/api.rs) on any schedule.
use mathlib.Core.Path.{subst}
use ffi_demo.Base.{ℕ, ◌≡◌, refl, sym, ap, ◌∙◌, ◌↔◌, Bool, true, false, List, map, concat, arith}
use ffi_demo.Base.Effect.{Result, ok, err, Unwind, returns, panics}
use ffi_demo.Util.World.{World}
use ffi_demo.Util.Log.{init_log}
use ffi_demo.Util.Response.{Response}
use ffi_demo.Util.CatchPanic.Laws.{Reports, catch_panic_response-outside}
use ffi_demo.Proofs.Types.{
  Bytes32, RegisteredSealProof, RegisteredAggregationProof, AggregationInputs, seal_into_api,
  aggregation_into_api,
}
use ffi_demo.Proofs.Post.{bool_default}
use ffi_demo.Proofs.Aggregate.{
  AggregateApi, convert_aggregation_inputs, verify_with, VerifyAggregateSealProof, ran,
}
use ffi_demo.Proofs.Aggregate.Schedules.{Yields, Joined-concat, Joined-Yields}

reported-true :
    (r : Unwind (Result Bool)) (resp : Response Bool)
    → Reports false r resp
    → r ≡ returns (ok true)
    → resp.value ≡ true
reported-true (returns (ok b)) resp reports h = ground arith
reported-true (returns (err e)) resp reports h = absurd (cc)
reported-true (panics p) resp reports h = absurd (cc)

module _ {E : Type 0} (api : AggregateApi E) (p : RegisteredSealProof)
    (agg : RegisteredAggregationProof) (prover_id : Bytes32) (proof : List ℕ)
    (inputs : List AggregationInputs) (w : World E) where
  -- The library call, on inputs converted in order.
  abbrev pub library_call : List (List api.Fr) → Unwind (Result Bool) × E
  library_call converted =
      api.verify_aggregate_seal_commit_proofs (seal_into_api p) (aggregation_into_api agg) proof
        (map (λ i. i.comm_r) inputs) (map (λ i. i.seed) inputs) converted w.ext

  verify_with-ok :
      (converted : List (List api.Fr))
      → let out = verify_with api p agg proof inputs (returns (ok converted)) w in
        Reports false (library_call converted).0 out.0 × (out.1.ext ≡ (library_call converted).1)
  unfolding verify_with
  verify_with-ok converted =
      catch_panic_response-outside "verify_aggregate_seal_proof"
        (api.verify_aggregate_seal_commit_proofs (seal_into_api p) (aggregation_into_api agg) proof
          (map (λ i. i.comm_r) inputs) (map (λ i. i.seed) inputs) converted)
        w

  -- An answer of true comes from converted inputs that the library accepts.
  verify_with-true :
      (converted : Unwind (Result (List (List api.Fr))))
      → (verify_with api p agg proof inputs converted w).0.value ≡ true
      → (all : List (List api.Fr)) × (converted ≡ returns (ok all))
        × ((library_call all).0 ≡ returns (ok true))
  unfolding verify_with init_log
  verify_with-true (returns (ok all)) h = (all, refl, ground arith)
  verify_with-true (returns (err e)) h = absurd (ground arith)
  verify_with-true (panics payload) h = absurd (ground arith)

  -- If every input is converted, the response of every schedule reports the library call on all the
  -- converted inputs in order, and leaves the state outside as it does.
  pub verify_aggregate-schedules :
      (vs : List (List (List api.Fr))) (out : Response Bool × World E)
      → Yields (convert_aggregation_inputs api p prover_id) inputs vs
      → VerifyAggregateSealProof api p agg prover_id proof inputs w out
      → Reports false (library_call (concat vs)).0 out.0
        × (out.1.ext ≡ (library_call (concat vs)).1)
  verify_aggregate-schedules vs out y (ran converted c e) =
      let fixed = Joined-concat (convert_aggregation_inputs api p prover_id) vs c y in
      let same = e ∙ ap (λ i. verify_with api p agg proof inputs i w) fixed in
      subst
        (λ o.
          Reports false (library_call (concat vs)).0 o.0 × (o.1.ext ≡ (library_call (concat vs)).1))
        (sym same) (verify_with-ok (concat vs))

  verdict-Yields :
      (out : Response Bool × World E)
      → VerifyAggregateSealProof api p agg prover_id proof inputs w out
      → out.0.value ≡ true
      → (vs : List (List (List api.Fr))) × Yields
          (convert_aggregation_inputs api p prover_id)
          inputs
          vs
        × ((library_call (concat vs)).0 ≡ returns (ok true))
  verdict-Yields out (ran converted c e) h =
      let (all, made, accepted) = verify_with-true converted (ap (λ o. o.0.value) (sym e) ∙ h) in
      let (vs, y, joined) = Joined-Yields (convert_aggregation_inputs api p prover_id) all c made in
      (vs, y, ap (λ i. (library_call i).0) joined ∙ accepted)

  -- On every schedule, the answer is true exactly if every input is converted and the library accepts
  -- the converted inputs in order.
  pub verify_aggregate-accepts :
      (out : Response Bool × World E)
      → VerifyAggregateSealProof api p agg prover_id proof inputs w out
      → (out.0.value ≡ true) ↔ (
          (vs : List (List (List api.Fr))) × Yields
            (convert_aggregation_inputs api p prover_id)
            inputs
            vs
          × ((library_call (concat vs)).0 ≡ returns (ok true)))
  verify_aggregate-accepts out v = (
    verdict-Yields out v,
    λ (vs, y, accepted). reported-true _ _ (verify_aggregate-schedules vs out y v).0 accepted,
  )
