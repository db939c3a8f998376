-- ===== src/Examples/FfiProofsRuns.antt =====
-- Sectors and proofs of Go code, over small libraries.
use ffi_demo.Base.{
  ℕ, suc, ◌≡◌, refl, ◌↔◌, Bool, true, none, some, List, [], ◌∷◌, replicate, ◌==◌, arith,
}
use ffi_demo.Base.Effect.{message, Result, ok, err, Unwind, returns}
use ffi_demo.Proofs.Types.{RegisteredSealProof}
use ffi_demo.Proofs.Helpers.{BtreeMap, ApiPrivateReplicaInfo, get}
use ffi_demo.Proofs.Unseal as Rust
use ffi_demo.Proofs.Helpers.Laws.{Sorted}
use ffi_demo.Ffi.Abi.{
  AbiPostProof, AbiSealProof, to_fil_registered_seal_proof, to_fil_registered_post_proof,
}
use ffi_demo.Ffi.Slices.{zeros, as_byte_array32}
use ffi_demo.Ffi.Boxes.{Heap, Fresh}
use ffi_demo.Ffi.Replicas.{
  GoLibs, PrivateSectorInfo, GoPostProof, go_end, as_commitment, to_32_byte_comm_r, to_prover_id,
  replica_parts, to_fil_public_replica_infos,
}
use ffi_demo.Ffi.Replicas.Laws.{CommitmentsOf32, Restored}
use ffi_demo.Ffi.Sectors.{new_sorted_private_sector_info}
use ffi_demo.Ffi.Sectors.Laws.{Ascending, find_info, new_sorted_private_sector_info-first}
use ffi_demo.Ffi.Sectors.Replicas.{AllConvert, held}
use ffi_demo.Ffi.Post.{Process, generate_winning_post, generate_window_post, verify_winning_post}
use ffi_demo.Ffi.Post.Laws.{generate_post-Restored}
use ffi_demo.Ffi.Post.Leaks.{Leaked, verify_winning_post-leaks}
use ffi_demo.Ffi.Post.Window.{window_answer, generate_window_post-answer}
use ffi_demo.Ffi.Seal.{SealLibs, SealVerifyInfo, verify_seal}
use ffi_demo.Ffi.Seal.Laws.{Convertible, verify_seal-accepts}
use ffi_demo.Ffi.Pieces.{undef, Os, generate_piece_cid_from_file, generate_piece_cid}
use ffi_demo.Ffi.Pieces.Laws.{generate_piece_cid-close}
use ffi_demo.Examples.ProofsRuns.{empty, one_proof, post_api, seal_api}

-- A CID of one byte is that byte 32 times.
abbrev commitment : List ℕ → Result (List ℕ)
commitment (b ∷ []) = ok (replicate 32 b)
commitment _ = err (message "no commitment")

abbrev libs : GoLibs
libs = record {
  replica_commitment = commitment;
  id_address_payload = λ n. ok (n ∷ []);
  winning_post_proof = λ s. ok AbiPostProof.stacked_drg_winning_32gib_v1;
  window_post_proof = λ s. ok AbiPostProof.stacked_drg_window_32gib_v1;
  show_int = λ i. "i";
}

libs-CommitmentsOf32 : CommitmentsOf32 libs
libs-CommitmentsOf32 [] bytes h = absurd (cc)
libs-CommitmentsOf32 (b ∷ []) bytes h = ground arith
libs-CommitmentsOf32 (b ∷ c ∷ cid) bytes h = absurd (cc)

abbrev info : ℕ → ℕ → PrivateSectorInfo
info n cid = record {
  sector_number = n;
  sealed_cid = cid ∷ [];
  cache_dir_path = 1 ∷ [];
  post_proof_type = AbiPostProof.stacked_drg_window_32gib_v1;
  sealed_sector_path = 2 ∷ [];
}

-- Sector 5 comes twice.
abbrev infos : List PrivateSectorInfo
infos = info 5 7 ∷ info 2 8 ∷ info 5 9 ∷ []

new_sorted_private_sector_info-first_example :
    Ascending (new_sorted_private_sector_info infos)
    × (find_info 5 (new_sorted_private_sector_info infos) ≡ some (info 5 7))
new_sorted_private_sector_info-first_example = new_sorted_private_sector_info-first infos 5

abbrev heap : Heap
heap = record { next_box = 3; live = λ i. i == 1; bad_frees = 0 }

heap-Fresh : Fresh heap
heap-Fresh i h = ground arith

abbrev process : Process ℕ
process = record { heap = heap; rust = empty }

generate_post-Restored_example :
    Restored heap (generate_winning_post libs post_api 4 infos (replicate 40 1) process).1.heap
    × Restored heap (generate_window_post libs post_api 4 infos (replicate 40 1) process).1.heap
generate_post-Restored_example =
    generate_post-Restored libs post_api 4 infos (replicate 40 1) process libs-CommitmentsOf32
      heap-Fresh

abbrev proof : GoPostProof
proof = record { post_proof = AbiPostProof.stacked_drg_winning_32gib_v1; proof_bytes = 7 ∷ [] }

verify_winning_post-leaks_example :
    Leaked heap 2 (verify_winning_post libs post_api [] (proof ∷ proof ∷ []) 4 [] process).1.heap
unfolding to_fil_public_replica_infos to_fil_registered_post_proof
verify_winning_post-leaks_example =
    verify_winning_post-leaks libs post_api [] [] (proof ∷ proof ∷ []) 4 [] process heap-Fresh refl
      ((_, refl), ((_, refl), tt))

infos-AllConvert : AllConvert libs infos
unfolding replica_parts to_32_byte_comm_r as_commitment go_end as_byte_array32
    to_fil_registered_post_proof
infos-AllConvert = ((_, refl), ((_, refl), ((_, refl), tt)))

prover_4 : to_prover_id libs 4 ≡ returns (ok (4 ∷ zeros 31))
unfolding to_prover_id as_commitment go_end as_byte_array32
prover_4 = refl

generate_window_post-answer_example :
    (m : BtreeMap ApiPrivateReplicaInfo) × Sorted m
    × ((k : ℕ) → get k m ≡ held libs (find_info k infos) none)
    × (let out =
          generate_window_post libs post_api 4
            (new_sorted_private_sector_info infos)
            (6 ∷ [])
            process in
        (out.0 ≡ window_answer (returns (ok one_proof)))
        × (out.1.rust.ext ≡ (post_api.generate_window_post (6 ∷ zeros 31) [] [] empty.ext).1))
generate_window_post-answer_example =
    generate_window_post-answer libs post_api 4 infos (6 ∷ []) (4 ∷ zeros 31) process
      infos-AllConvert prover_4 (omega arith)

abbrev seal_libs : SealLibs
seal_libs = record { libs = libs; data_commitment = commitment }

abbrev sealed : SealVerifyInfo
sealed = record {
  seal_proof = AbiSealProof.stacked_drg_32gib_v1_1;
  miner = 4;
  number = 5;
  randomness = 1 ∷ [];
  interactive_randomness = 2 ∷ [];
  proof = 3 ∷ [];
  sealed_cid = 6 ∷ [];
  unsealed_cid = 7 ∷ [];
}

sealed-Convertible : Convertible seal_libs sealed
unfolding to_fil_registered_seal_proof
sealed-Convertible = record {
  sp = RegisteredSealProof.stacked_drg_32gib_v1_1;
  comm_r = replicate 32 6;
  comm_d = replicate 32 7;
  payload = 4 ∷ [];
  named = refl;
  sealed = refl;
  unsealed = refl;
  miner = refl;
  comm_r_fits = omega arith;
  comm_d_fits = omega arith;
  payload_fits = omega arith;
  randomness_fits = omega arith;
  interactive_fits = omega arith;
}

abbrev accepted : Unwind (Result Bool)
accepted = returns (ok true)

verify_seal-accepts_example :
    ((verify_seal seal_libs seal_api sealed empty).0 ≡ returns (ok true))
    ↔ (accepted ≡ returns (ok true))
verify_seal-accepts_example = verify_seal-accepts seal_libs seal_api sealed sealed-Convertible empty

-- Every file opens as the descriptor 3, and closes.
abbrev os : Os ℕ
os = record {
  open_file = λ path e. (ok 3, e);
  close_file = λ fd e. (none, suc e);
  piece_cid = λ bytes. err (message "no CID");
}

no_cid :
    (generate_piece_cid_from_file seal_libs seal_api os AbiSealProof.stacked_drg_32gib_v1 3 127
      empty).0
    ≡ returns (err (message "no CID"))
unfolding generate_piece_cid_from_file to_fil_registered_seal_proof Rust.generate_piece_commitment
no_cid = refl

generate_piece_cid-close_example :
    let made =
      generate_piece_cid_from_file seal_libs seal_api os AbiSealProof.stacked_drg_32gib_v1 3 127
        empty in
    let out =
      generate_piece_cid seal_libs seal_api os AbiSealProof.stacked_drg_32gib_v1 [] 127 empty in
    (out.0 ≡ returns (undef, none)) × (out.1.ext ≡ suc made.1.ext)
generate_piece_cid-close_example =
    generate_piece_cid-close seal_libs seal_api os AbiSealProof.stacked_drg_32gib_v1 [] 127 3 empty
      (err (message "no CID")) refl no_cid
