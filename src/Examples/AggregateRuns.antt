-- ===== src/Examples/AggregateRuns.antt =====
-- A small library for aggregates and empty sector updates.
use ffi_demo.Base.{ℕ, suc, refl, ◌≡◌, ◌↔◌, Bool, true, List, [], ◌∷◌, concat, ◌==◌, length}
use ffi_demo.Base.Effect.{Result, ok, Unwind, returns}
use ffi_demo.Util.World.{World}
use ffi_demo.Util.Response.{no_error, Response}
use ffi_demo.Proofs.Types.{
  RegisteredSealProof, snark_pack_v1, RegisteredUpdateProof, AggregationInputs,
}
use ffi_demo.Proofs.Aggregate.{
  AggregateApi, convert_aggregation_inputs, Converted, one, join, verify_with,
  VerifyAggregateSealProof, ran,
}
use ffi_demo.Proofs.Aggregate.Schedules.{Yields}
use ffi_demo.Proofs.Aggregate.Verdict.{verify_aggregate-accepts}
use ffi_demo.Proofs.Update.{UpdateApi}
use ffi_demo.Proofs.Update.Prove.{
  generate_empty_sector_update_partition_proofs, verify_empty_sector_update_partition_proofs,
  generate_empty_sector_update_proof_with_vanilla, verify_empty_sector_update_proof,
}
use ffi_demo.Proofs.Update.Pipeline.{partition_proofs-pipeline}
use ffi_demo.Examples.Concrete.{world}

abbrev empty : World ℕ
empty = world 0

abbrev seal : RegisteredSealProof
seal = RegisteredSealProof.stacked_drg_32gib_v1_1

-- The proof says how many inputs it is about.
abbrev right_count : List ℕ → List (List ℕ) → Bool
right_count [] inputs = length inputs == 0
right_count (n ∷ proof) inputs = length inputs == n

abbrev aggregate_api : AggregateApi ℕ
aggregate_api = record {
  Fr = ℕ;
  aggregate_seal_commit_proofs = λ p a r s l e. (returns (ok []), suc e);
  get_seal_inputs = λ p r d q k t s. returns (ok ((k ∷ []) ∷ []));
  verify_aggregate_seal_commit_proofs =
      λ p a proof r s inputs e. (returns (ok (right_count proof inputs)), suc e);
}

abbrev input : ℕ → AggregationInputs
input k = record { comm_r = []; comm_d = []; sector_id = k; ticket = []; seed = [] }

abbrev inputs : List AggregationInputs
inputs = input 4 ∷ input 5 ∷ []

abbrev converted : Unwind (Result (List (List ℕ)))
converted = returns (ok ((4 ∷ []) ∷ (5 ∷ []) ∷ []))

-- The schedule that converts each input in a piece of its own.
two_pieces : Converted aggregate_api seal [] inputs converted
unfolding convert_aggregation_inputs
two_pieces =
    join (input 4 ∷ []) (input 5 ∷ []) ((4 ∷ []) ∷ []) ((5 ∷ []) ∷ []) refl
      (one (input 4) ((4 ∷ []) ∷ []) refl refl refl) (one (input 5) ((5 ∷ []) ∷ []) refl refl refl)
      refl

abbrev answer : Response Bool × World ℕ
answer = verify_with aggregate_api seal snark_pack_v1 (2 ∷ []) inputs converted empty

abbrev went :
    VerifyAggregateSealProof aggregate_api seal snark_pack_v1 [] (2 ∷ []) inputs empty answer
went = ran converted two_pieces refl

verify_aggregate-accepts_example : (answer.0.value ≡ true) ↔ (
    (vs : List (List (List ℕ))) × Yields
      (convert_aggregation_inputs aggregate_api seal [])
      inputs
      vs
    × (returns (ok (right_count (2 ∷ []) (concat vs))) ≡ returns (ok true)))
verify_aggregate-accepts_example =
    verify_aggregate-accepts aggregate_api seal snark_pack_v1 [] (2 ∷ []) inputs empty answer went

abbrev update : RegisteredUpdateProof
update = RegisteredUpdateProof.stacked_drg_32gib_v1

abbrev update_api : UpdateApi ℕ
update_api = record {
  empty_sector_update_encode_into = λ p a b c d f l e.
      (returns (ok (record { comm_r_new = []; comm_r_last_new = []; comm_d_new = [] })), suc e);
  empty_sector_update_decode_from = λ p a b c d q e. (returns (ok tt), suc e);
  empty_sector_update_remove_encoded_data = λ p a b c d f q e. (returns (ok tt), suc e);
  generate_partition_proofs = λ p o n d a b c f e. (returns (ok ((7 ∷ []) ∷ [])), suc e);
  verify_partition_proofs = λ p l o n d e. (returns (ok (length l == 1)), suc e);
  generate_empty_sector_update_proof_with_vanilla =
      λ p l o n d e. (returns (ok (length l ∷ [])), suc e);
  generate_empty_sector_update_proof = λ p o n d a b c f e. (returns (ok (1 ∷ [])), suc e);
  verify_empty_sector_update_proof = λ p l o n d e. (returns (ok (length l == 1)), suc e);
}

partition_proofs-pipeline_example :
    let made =
      generate_empty_sector_update_partition_proofs update_api update [] [] [] [] [] [] [] empty in
    let checked =
      verify_empty_sector_update_partition_proofs update_api update made.0.value [] [] [] made.1 in
    let proved =
      generate_empty_sector_update_proof_with_vanilla update_api update made.0.value [] [] []
        made.1 in
    let verified =
      verify_empty_sector_update_proof update_api update proved.0.value [] [] [] proved.1 in
    (made.0.status_code ≡ no_error)
    × ((checked.0.value ≡ true) ↔ (returns (ok true) ≡ returns (ok true)))
    × (proved.0.status_code ≡ no_error)
    × ((verified.0.value ≡ true) ↔ (returns (ok true) ≡ returns (ok true)))
partition_proofs-pipeline_example =
    partition_proofs-pipeline update_api update [] [] [] [] [] [] [] empty ((7 ∷ []) ∷ []) 1 2
      (1 ∷ []) refl refl
