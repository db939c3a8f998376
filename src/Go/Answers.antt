-- ===== src/Go/Answers.antt =====
-- The Rust externs over the Go side: what becomes of the randomness and the faults of the user's code.
use ffi_demo.Base.{
  ℕ, String, zero, suc, ◌-◌, ◌≤◌, ◌<◌, ◌^◌, ◌≡◌, refl, sym, ap, ◌∙◌, Option, none, some, List, [],
  ◌∷◌, ◌++◌, length, take, replicate, arith,
}
use ffi_demo.Base.Int.{ℤ, pos, as_i32}
use ffi_demo.Base.Effect.{Exec, pure, ◌>>=◌, ◌>>◌}
use ffi_demo.Fvm.Cgo.{Std, CgoApi, fvm_error_i32}
use ffi_demo.Fvm.Blockstore.Cgo.Codes.{Ending, value, error, ending}
use ffi_demo.Fvm.Externs.{
  ConsensusFault, extern_code, fault_of, get_chain_randomness, get_beacon_randomness,
  verify_consensus_fault,
}
use ffi_demo.Go.{GoEnd, done, panicked, GoError, GoFault, Externs, GoState, lookup_externs}
use ffi_demo.Go.Store.{GoApi}
use ffi_demo.Go.Chain.{
  copy_32, rand_end, fault_end, go_side, cgo_extern_get_chain_randomness,
  cgo_extern_get_beacon_randomness, cgo_extern_verify_consensus_fault,
}
use ffi_demo.Go.Refines.{go_bytes_whole}

-- The first 32 bytes of what the user returned, and zeros where it is shorter.
abbrev pub padded_32 : List ℕ → List ℕ
padded_32 rand = take 32 (rand ++ replicate 32 0)

take-replicate : (n m : ℕ) → n ≤ m → take {A = ℕ} n (replicate m 0) ≡ replicate n 0
take-replicate zero m h = refl
take-replicate (suc n) zero h = absurd (omega (arith, h))
take-replicate (suc n) (suc m) h = ap (◌∷◌ 0) (take-replicate n m (omega arith))

take_padded :
    (n m : ℕ) (xs : List ℕ)
    → n ≤ m
    → take n xs ++ replicate (n - length xs) 0 ≡ take n (xs ++ replicate m 0)
take_padded zero m xs h =
    let nothing : 0 - length xs ≡ 0 = omega arith in ap (λ k. replicate {A = ℕ} k 0) nothing
take_padded (suc n) m [] h =
    let all : suc n - 0 ≡ suc n = omega arith in
    ap (λ k. replicate {A = ℕ} k 0) all ∙ sym (take-replicate (suc n) m h)
take_padded (suc n) m (x ∷ xs) h =
    let rest : suc n - suc (length xs) ≡ n - length xs = omega arith in
    ap (λ k. x ∷ (take n xs ++ replicate k 0)) rest ∙ ap (◌∷◌ x) (take_padded n m xs (omega arith))

abbrev pub rand_ending : GoEnd (List ℕ × Option GoError) → Ending (List ℕ)
rand_ending (done (rand, none)) = value (padded_32 rand)
rand_ending (done (_, some _)) = error
rand_ending panicked = error

module _ {Target FaultType : Type 0} (new_id : ℕ → Target) (from_i64 : ℤ → Option FaultType) where
  -- What is reported of a fault: its miner must have an ID address and its type be known.
  abbrev pub reported :
      Option ℕ → Option FaultType → ℤ → ℤ → Ending (Option (ConsensusFault Target FaultType) × ℤ)
  reported (some id) (some t) epoch gas =
      value (some (record { target = new_id id; epoch = epoch; fault_type = t }), gas)
  reported _ _ epoch gas = error

  module _ {Address : Type 0} (api : GoApi Address) where
    abbrev pub typed_ending :
        ℤ → GoFault Address → ℤ → Ending (Option (ConsensusFault Target FaultType) × ℤ)
    typed_ending (pos zero) fault gas = value (none, gas)
    typed_ending t fault gas =
        reported (api.id_from_address fault.target) (from_i64 t) fault.epoch gas

    -- A nil fault and a panic are errors.
    abbrev pub go_fault_ending :
        GoEnd (Option (GoFault Address) × ℤ) → Ending (Option (ConsensusFault Target FaultType) × ℤ)
    go_fault_ending (done (some fault, gas)) = typed_ending fault.fault_type fault gas
    go_fault_ending (done (none, _)) = error
    go_fault_ending panicked = error

rand_code-ending :
    (F : Std) {E : Type 0} (name : String) (handle : ℕ) (r : GoEnd (List ℕ × Option GoError))
    (e : E)
    → let (code, buf) = rand_end r in
      (ending (extern_code F name handle buf code e).0 ≡ rand_ending r)
      × ((extern_code F name handle buf code e).1 ≡ e)
unfolding rand_end extern_code copy_32 fvm_error_i32
rand_code-ending F name handle (done (rand, none)) e =
    (ap value (take_padded 32 32 rand (omega arith)), refl)
rand_code-ending F name handle (done (rand, some x)) e = (refl, refl)
rand_code-ending F name handle panicked e = (refl, refl)

-- What the Rust side makes of the words that the Go side writes.
fault_code-ending :
    (F : Std) {Address E Target FaultType : Type 0} (go : CgoApi E) (api : GoApi Address)
    (handle : ℕ) (new_id : ℕ → Target) (from_i64 : ℤ → Option FaultType)
    (r : GoEnd (Option (GoFault Address) × ℤ)) (e : E)
    → let (code, id, epoch, t, gas) = fault_end api r in
      let run : Exec E (Option (ConsensusFault Target FaultType) × ℤ) = (do
        extern_code F "verify_consensus_fault" handle tt code
        fault ← fault_of F go handle new_id from_i64 id epoch t
        pure (fault, gas)) in
      (ending (run e).0 ≡ go_fault_ending new_id from_i64 api r) × ((run e).1 ≡ e)
unfolding fault_end extern_code fault_of
fault_code-ending F go api handle new_id from_i64 (done (some fault, gas)) e = ground arith
fault_code-ending F go api handle new_id from_i64 (done (none, gas)) e = ground arith
fault_code-ending F go api handle new_id from_i64 panicked e = ground arith

module _ (F : Std) {Address U : Type 0} (api : GoApi Address) (handle : ℕ)
    (s : GoState Address U) where
  chain-go :
      (x : Externs Address U) (pers round : ℤ) (entropy : List ℕ)
      → lookup_externs handle s ≡ some x
      → length entropy < 2 ^ 31
      → let chain = x.get_chain_randomness pers round entropy s.user in
        cgo_extern_get_chain_randomness api handle pers round entropy (as_i32 (length entropy)) s
        ≡ (rand_end chain.0, record s { user = chain.1 })
  unfolding cgo_extern_get_chain_randomness
  chain-go x pers round entropy registered small =
      ground (arith, go_bytes_whole api.negative entropy)

  beacon-go :
      (x : Externs Address U) (pers round : ℤ) (entropy : List ℕ)
      → lookup_externs handle s ≡ some x
      → length entropy < 2 ^ 31
      → let beacon = x.get_beacon_randomness pers round entropy s.user in
        cgo_extern_get_beacon_randomness api handle pers round entropy (as_i32 (length entropy)) s
        ≡ (rand_end beacon.0, record s { user = beacon.1 })
  unfolding cgo_extern_get_beacon_randomness
  beacon-go x pers round entropy registered small =
      ground (arith, go_bytes_whole api.negative entropy)

  fault-go :
      (x : Externs Address U) (h1 h2 extra : List ℕ)
      → lookup_externs handle s ≡ some x
      → length h1 < 2 ^ 31
      → length h2 < 2 ^ 31
      → length extra < 2 ^ 31
      → let fault = x.verify_consensus_fault h1 h2 extra s.user in
        cgo_extern_verify_consensus_fault api handle h1
          (as_i32 (length h1))
          h2
          (as_i32 (length h2))
          extra
          (as_i32 (length extra))
          s
        ≡ (fault_end api fault.0, record s { user = fault.1 })
  unfolding cgo_extern_verify_consensus_fault
  fault-go x h1 h2 extra registered a b c = ground (
    arith,
    go_bytes_whole api.negative h1,
    go_bytes_whole api.negative h2,
    go_bytes_whole api.negative extra,
  )

  -- On a registered handle, the externs ask the registered ones once. Randomness is the first 32 bytes of what
  -- they return, and zeros where it is shorter. A fault of type 0 is none; any other is reported with
  -- its epoch if its miner has an ID address and its type is known. An error or a panic of theirs, a
  -- nil fault, a miner without an ID and an unknown type are an error. The registry stays. Lengths fit
  -- in an `i32`.
  pub registered-externs :
      {Target FaultType : Type 0} (new_id : ℕ → Target) (from_i64 : ℤ → Option FaultType)
      (x : Externs Address U) (pers round : ℤ) (entropy h1 h2 extra : List ℕ)
      → lookup_externs handle s ≡ some x
      → length entropy < 2 ^ 31
      → length h1 < 2 ^ 31
      → length h2 < 2 ^ 31
      → length extra < 2 ^ 31
      → let chain = x.get_chain_randomness pers round entropy s.user in
        let beacon = x.get_beacon_randomness pers round entropy s.user in
        let fault = x.verify_consensus_fault h1 h2 extra s.user in
        let c = get_chain_randomness F (go_side api) handle pers round entropy s in
        let b = get_beacon_randomness F (go_side api) handle pers round entropy s in
        let f = verify_consensus_fault F (go_side api) handle new_id from_i64 h1 h2 extra s in
        (ending c.0 ≡ rand_ending chain.0)
        × (c.1 ≡ record s { user = chain.1 })
        × (ending b.0 ≡ rand_ending beacon.0)
        × (b.1 ≡ record s { user = beacon.1 })
        × (ending f.0 ≡ go_fault_ending new_id from_i64 api fault.0)
        × (f.1 ≡ record s { user = fault.1 })
  unfolding get_chain_randomness get_beacon_randomness verify_consensus_fault
  registered-externs new_id from_i64 x pers round entropy h1 h2 extra registered small a b c =
      let chain = x.get_chain_randomness pers round entropy s.user in
      let beacon = x.get_beacon_randomness pers round entropy s.user in
      let fault = x.verify_consensus_fault h1 h2 extra s.user in
      let (c1, c2) =
        rand_code-ending F "get_chain_randomness" handle chain.0 (record s { user = chain.1 }) in
      let (b1, b2) =
        rand_code-ending F "get_beacon_randomness" handle beacon.0 (record s { user = beacon.1 }) in
      let (f1, f2) =
        fault_code-ending F (go_side api) api handle new_id from_i64 fault.0
          (record s { user = fault.1 }) in
      rw
        (
          chain-go x pers round entropy registered small,
          beacon-go x pers round entropy registered small,
          fault-go x h1 h2 extra registered a b c,
        )
        (c1, c2, b1, b2, f1, f2)
