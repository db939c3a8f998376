-- ===== src/Examples/GoRuns.antt =====
-- A user of the Go side, whose store counts its calls and panics on the block 9.
use native.Mathlib.Decide.{ℕ_discrete}
use ffi_demo.Base.{
  ℕ, suc, ◌≤◌, ◌≡◌, refl, true, Option, none, some, List, [], ◌∷◌, concat, sum, ◌==◌, if◌then◌else◌,
  arith,
}
use ffi_demo.Base.Int.{pos}
use ffi_demo.Base.Map.{lookup}
use ffi_demo.Fvm.Blockstore.Cgo.{has, get, put_keyed, put_many_keyed}
use ffi_demo.Fvm.Blockstore.Cgo.Codes.{value, error, unwound, ending}
use ffi_demo.Fvm.Blockstore.Batches.{Blocks}
use ffi_demo.Fvm.Blockstore.Batches.Refines.{WritesCids}
use ffi_demo.Fvm.Blockstore.Batches.Bounds.{AllFit}
use ffi_demo.Fvm.Externs.{get_chain_randomness, get_beacon_randomness, verify_consensus_fault}
use ffi_demo.Go.{
  GoEnd, done, panicked, GoError, GoFault, err_not_found, Externs, GoState, register, unregister,
  lookup_externs,
}
use ffi_demo.Go.Store.{GoApi}
use ffi_demo.Go.Chain.{go_side}
use ffi_demo.Go.Answers.{padded_32, registered-externs}
use ffi_demo.Go.Refines.{put_ending, registered-answers, unregistered-unwinds}
use ffi_demo.Go.Batches.{ReadsCids, store_batches, put_many_keyed-store_batches}
use ffi_demo.Go.Handles.{Op, registers, unregisters, run_ops, handle_life}
use ffi_demo.Examples.Concrete.{cids, std}

abbrev first_byte : List ℕ → Option (ℕ × List ℕ)
first_byte [] = none
first_byte (k ∷ bytes) = some (1, k ∷ [])

abbrev pub go_api : GoApi ℕ
go_api = record {
  cid_from_bytes = first_byte;
  id_from_address = some;
  negative = panicked;
  wild = [];
}

abbrev put_block : List ℕ → GoEnd (Option GoError)
put_block block = if sum block == 9 then panicked else done none

abbrev found : GoFault ℕ
found = record { target = 7; epoch = pos 3; fault_type = pos 1 }

abbrev pub user : Externs ℕ ℕ
user = record {
  get_chain_randomness = λ p r b u. (done (4 ∷ [], none), suc u);
  get_beacon_randomness = λ p r b u. (panicked, suc u);
  verify_consensus_fault = λ a b c u. (done (some found, pos 9), suc u);
  view = λ k u. (done ([], some err_not_found), suc u);
  put = λ k block u. (put_block block, suc u);
  put_many = λ blocks u. (done none, suc u);
  has = λ k u. (done (true, none), suc u);
}

-- The user's externs under handle 1.
abbrev pub one_user : GoState ℕ ℕ
one_user = record { registry = (1, user) ∷ []; next_id = 2; user = 0 }

registered-answers_example :
    let g = get std cids (go_side go_api) 1 5 one_user in
    let h = has std cids (go_side go_api) 1 5 one_user in
    let p = put_keyed std cids (go_side go_api) 1 5 (9 ∷ []) one_user in
    (ending g.0 ≡ value none)
    × (g.1 ≡ record one_user { user = 1 })
    × (ending h.0 ≡ value true)
    × (h.1 ≡ record one_user { user = 1 })
    × (ending p.0 ≡ error)
    × (p.1 ≡ record one_user { user = 1 })
unfolding lookup_externs lookup ℕ_discrete
registered-answers_example =
    registered-answers std cids go_api 1 one_user user 5 (9 ∷ []) refl (omega arith) (omega arith)
      (omega arith)

registered-externs_example :
    let c = get_chain_randomness std (go_side go_api) 1 (pos 0) (pos 3) [] one_user in
    let b = get_beacon_randomness std (go_side go_api) 1 (pos 0) (pos 3) [] one_user in
    let f =
      verify_consensus_fault std (go_side go_api) 1 (λ n. n) (λ t. some t) [] [] [] one_user in
    (ending c.0 ≡ value (padded_32 (4 ∷ [])))
    × (c.1 ≡ record one_user { user = 1 })
    × (ending b.0 ≡ error)
    × (b.1 ≡ record one_user { user = 1 })
    × (ending f.0 ≡ value (some (record { target = 7; epoch = pos 3; fault_type = pos 1 }), pos 9))
    × (f.1 ≡ record one_user { user = 1 })
unfolding lookup_externs lookup ℕ_discrete
registered-externs_example =
    registered-externs std go_api 1 one_user (λ n. n) (λ t. some t) user (pos 0) (pos 3) [] [] [] []
      refl (omega arith) (omega arith) (omega arith) (omega arith)

cids-WritesCids : WritesCids cids
cids-WritesCids = record { writes = λ k. refl; has_bytes = λ k. omega arith }

abbrev two_blocks : Blocks cids
two_blocks = (3, 1 ∷ 2 ∷ []) ∷ (5, 9 ∷ []) ∷ []

unregistered-unwinds_example :
    let g = get std cids (go_side go_api) 7 5 one_user in
    let h = has std cids (go_side go_api) 7 5 one_user in
    let p = put_keyed std cids (go_side go_api) 7 5 [] one_user in
    let m = put_many_keyed std cids (go_side go_api) 7 two_blocks one_user in
    let c = get_chain_randomness std (go_side go_api) 7 (pos 0) (pos 3) [] one_user in
    let d = get_beacon_randomness std (go_side go_api) 7 (pos 0) (pos 3) [] one_user in
    let f =
      verify_consensus_fault std (go_side go_api) 7 (λ n. n) (λ t. some t) [] [] [] one_user in
    (ending g.0 ≡ unwound)
    × (g.1 ≡ one_user)
    × (ending h.0 ≡ unwound)
    × (h.1 ≡ one_user)
    × (ending p.0 ≡ unwound)
    × (p.1 ≡ one_user)
    × (ending m.0 ≡ unwound)
    × (m.1 ≡ one_user)
    × (ending c.0 ≡ unwound)
    × (c.1 ≡ one_user)
    × (ending d.0 ≡ unwound)
    × (d.1 ≡ one_user)
    × (ending f.0 ≡ unwound)
    × (f.1 ≡ one_user)
unfolding lookup_externs lookup ℕ_discrete
unregistered-unwinds_example =
    unregistered-unwinds std cids go_api 7 one_user (λ n. n) (λ t. some t) 5 [] (3, 1 ∷ 2 ∷ [])
      ((5, 9 ∷ []) ∷ []) (pos 0) (pos 3) [] [] [] [] refl cids-WritesCids (omega arith)

go_api-ReadsCids : ReadsCids cids go_api
go_api-ReadsCids = record { reads = λ k rest. refl }

one_byte : (k : ℕ) → 1 ≤ 100
one_byte k = omega arith

put_many_keyed-store_batches_example :
    let sent = put_many_keyed std cids (go_side go_api) 1 two_blocks one_user in
    (bs : List (Blocks cids)) × (concat bs ≡ two_blocks)
    × AllFit cids bs
    × (ending sent.0 ≡ put_ending (store_batches cids user bs 0).0)
    × (sent.1 ≡ record one_user { user = (store_batches cids user bs 0).1 })
unfolding lookup_externs lookup ℕ_discrete
put_many_keyed-store_batches_example =
    put_many_keyed-store_batches std cids go_api 1 user two_blocks one_user cids-WritesCids one_byte
      go_api-ReadsCids refl (omega arith, (omega arith, tt))

abbrev before : List (Op ℕ ℕ)
before = registers user ∷ unregisters 1 ∷ []

abbrev after : List (Op ℕ ℕ)
after = registers user ∷ []

handle_life_example :
    let t = (register user one_user).1 in
    (lookup_externs 2 (run_ops before t) ≡ some user)
    × (lookup_externs 2 (run_ops after (unregister 2 (run_ops before t))) ≡ none)
unfolding register
handle_life_example =
    handle_life user before after one_user (omega arith) (λ h. absurd (omega (arith, h)), tt)
