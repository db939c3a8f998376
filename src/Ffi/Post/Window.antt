-- ===== src/Ffi/Post/Window.antt =====
-- `GenerateWindowPoSt`, from the sectors of a user to what the proofs' API answers.
use ffi_demo.Base.{ℕ, ◌≤◌, ◌≡◌, none, List, [], map, length, arith}
use ffi_demo.Base.Effect.{message, display, ok, err, Unwind, Result, returns, panics}
use ffi_demo.Util.CatchPanic.Laws.{panic_reason, panic_message-panic_reason}
use ffi_demo.Proofs.Types.{Bytes32, GenerateWindowPost}
use ffi_demo.Util.Response.{Response}
use ffi_demo.Proofs.Post.{PostApi, ApiProofs, post_proof, faulty}
use ffi_demo.Proofs.Post.Laws.{WindowReports, generate_window_post-reports}
use ffi_demo.Proofs.Helpers.{BtreeMap, ApiPrivateReplicaInfo, get, to_private_replica_info_map}
use ffi_demo.Proofs.Helpers.Laws.{Sorted}
use ffi_demo.Ffi.Machine.{check_err}
use ffi_demo.Ffi.Replicas.{
  GoLibs, PrivateSectorInfo, CPrivateReplicaInfo, replica_view, to_prover_id,
  to_fil_private_replica_infos, from_fil_post_proofs,
}
use ffi_demo.Ffi.Sectors.{new_sorted_private_sector_info}
use ffi_demo.Ffi.Sectors.Laws.{find_info}
use ffi_demo.Ffi.Sectors.Replicas.{AllConvert, held, Sorted-replicas-first}
use ffi_demo.Ffi.Seal.Laws.{padded, as_array}
use ffi_demo.Ffi.Post.{
  Process, WindowEnd, proved, faulted, wrap_end, deferring, with_replicas, window_end, window_call,
  window_body, generate_window_post,
}

-- What the user gets for what the API answers.
abbrev pub window_answer : Unwind (Result ApiProofs) → Unwind (Result WindowEnd)
window_answer (returns (ok output)) = elim (from_fil_post_proofs (map post_proof output)) [
  | ok proofs ↦ returns (ok (proved proofs))
  | err e ↦ returns (err e)
]
window_answer (returns (err e)) = returns (ok (faulted (faulty e) (message (display e))))
window_answer (panics p) = returns (ok (faulted [] (message (panic_reason p))))

window_end-Reports :
    (u : Unwind (Result ApiProofs)) (resp : Response GenerateWindowPost)
    → WindowReports u resp
    → window_end resp ≡ window_answer u
unfolding window_end check_err
window_end-Reports (returns (ok output)) resp h = ground arith
window_end-Reports (returns (err e)) resp h = ground arith
window_end-Reports (panics p) resp h = ground (arith, panic_message-panic_reason p)

module _ {E : Type 0} (L : GoLibs) (api : PostApi E) where
  window_body-answer :
      (miner_id : ℕ) (randomness : List ℕ) (prover : Bytes32) (out : List CPrivateReplicaInfo)
      (m : BtreeMap ApiPrivateReplicaInfo) (s : Process E)
      → to_prover_id L miner_id ≡ returns (ok prover)
      → length randomness ≤ 32
      → to_private_replica_info_map (map replica_view out) ≡ ok m
      → let run = api.generate_window_post (padded randomness) m prover s.rust.ext in
        let end = window_body L api miner_id randomness out s in
        (end.0 ≡ window_answer run.0) × (end.1.rust.ext ≡ run.1)
  unfolding window_body window_call
  window_body-answer miner_id randomness prover out m s hp hr made =
      let reports =
        generate_window_post-reports api (padded randomness) prover (map replica_view out) s.rust m
          made in
      rw (hp, as_array randomness hr) (window_end-Reports _ _ reports.0, reports.1)

  -- Sectors whose CIDs and proof types convert, a miner that converts and at most 32 bytes of
  -- randomness: on the sorted sectors `GenerateWindowPoSt` leaves the state outside as one call of the
  -- proofs' API does, with one map, in the order of the sectors, that holds for every sector number what
  -- the first information on it converts to and nothing for any other. The user gets the proofs that the
  -- call returns, or the error with the faulty sectors that it names, or for a panic an error with
  -- its text if that is a string literal and else "no unwind information".
  pub generate_window_post-answer :
      (miner_id : ℕ) (infos : List PrivateSectorInfo) (randomness : List ℕ) (prover : Bytes32)
      (s : Process E)
      → AllConvert L infos
      → to_prover_id L miner_id ≡ returns (ok prover)
      → length randomness ≤ 32
      → (m : BtreeMap ApiPrivateReplicaInfo) × Sorted m
        × ((k : ℕ) → get k m ≡ held L (find_info k infos) none)
        × (let run = api.generate_window_post (padded randomness) m prover s.rust.ext in
            let out =
              generate_window_post L api miner_id
                (new_sorted_private_sector_info infos)
                randomness
                s in
            (out.0 ≡ window_answer run.0) × (out.1.rust.ext ≡ run.1))
  unfolding generate_window_post with_replicas deferring wrap_end
  generate_window_post-answer miner_id infos randomness prover s c hp hr =
      let (out, limit, m, e, made, order, holds) = Sorted-replicas-first L infos s.heap c in
      let h' = (to_fil_private_replica_infos L (new_sorted_private_sector_info infos) s.heap).1 in
      let answer =
        window_body-answer miner_id randomness prover out m (record s { heap = h' }) hp hr made in
      (m, order, holds, rw (with_replicas, e) answer)
