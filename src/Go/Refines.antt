-- ===== src/Go/Refines.antt =====
-- The Rust store and externs over the Go side: what becomes of each answer of the user's code, and of a
-- handle that is not registered.
use ffi_demo.Base.{
  ℕ, ◌<◌, ◌^◌, ◌≡◌, refl, Bool, false, Option, none, some, List, [], ◌∷◌, ◌++◌, length, take-length,
  arith,
}
use ffi_demo.Base.Int.{ℤ, as_i32, as_i32_small}
use ffi_demo.Fvm.Cgo.{Std, fvm_error_i32}
use ffi_demo.Fvm.Blockstore.{CidApi}
use ffi_demo.Fvm.Blockstore.Cgo.{get_code, has, get, put_keyed, write_batch, put_many_keyed}
use ffi_demo.Fvm.Blockstore.Batches.{Blocks, batches, send_all}
use ffi_demo.Fvm.Blockstore.Batches.Refines.{WritesCids, put_many_keyed-send_all}
use ffi_demo.Fvm.Blockstore.Cgo.Codes.{Ending, value, error, unwound, ending}
use ffi_demo.Fvm.Externs.{get_chain_randomness, get_beacon_randomness, verify_consensus_fault}
use ffi_demo.Go.{
  GoEnd, done, panicked, GoError, err_not_found, other_error, Externs, GoState, lookup_externs,
}
use ffi_demo.Go.Store.{
  GoApi, go_bytes, sized, view_code, cgo_blockstore_get, cgo_blockstore_put, cgo_blockstore_has,
  cgo_blockstore_put_many,
}
use ffi_demo.Go.Chain.{
  go_side, cgo_extern_get_chain_randomness, cgo_extern_get_beacon_randomness,
  cgo_extern_verify_consensus_fault,
}

-- What a caller in Rust sees of a store's answer. A panic of the store is an error, not a panic.
abbrev pub view_ending : GoEnd (List ℕ × Option GoError) → Ending (Option (List ℕ))
view_ending (done (block, none)) = value (some block)
view_ending (done (_, some err_not_found)) = value none
view_ending (done (_, some other_error)) = error
view_ending panicked = error

-- The block that was viewed, if any, has a length in an `i32`.
abbrev pub ViewFits : GoEnd (List ℕ × Option GoError) → Type 0
ViewFits (done (block, _)) = length block < 2 ^ 31
ViewFits panicked = Unit

abbrev pub has_ending : GoEnd (Bool × Option GoError) → Ending Bool
has_ending (done (b, none)) = value b
has_ending (done (_, some err_not_found)) = value false
has_ending (done (_, some other_error)) = error
has_ending panicked = error

abbrev pub put_ending : GoEnd (Option GoError) → Ending (Unit {0})
put_ending (done none) = value tt
put_ending (done (some _)) = error
put_ending panicked = error

-- The bytes that the Go side copies are those that the Rust side passes.
pub go_bytes_whole :
    (negative : GoEnd (List ℕ)) (bytes : List ℕ)
    → length bytes < 2 ^ 31
    → go_bytes negative bytes (as_i32 (length bytes)) ≡ done bytes
unfolding go_bytes
go_bytes_whole negative bytes h = rw (as_i32_small (length bytes) h, take-length bytes)

view_code-ending :
    (F : Std) {E : Type 0} (handle : ℕ) (wild : List ℕ) (r : GoEnd (List ℕ × Option GoError))
    (e : E)
    → ViewFits r
    → let (code, buf) = view_code wild r in
      (ending (get_code F handle code buf e).0 ≡ view_ending r)
      × ((get_code F handle code buf e).1 ≡ e)
unfolding view_code get_code sized fvm_error_i32
view_code-ending F handle wild (done (block, none)) e fits =
    rw (as_i32_small (length block) fits, take-length block) (refl, refl)
view_code-ending F handle wild (done (block, some err_not_found)) e fits = (refl, refl)
view_code-ending F handle wild (done (block, some other_error)) e fits = (refl, refl)
view_code-ending F handle wild panicked e fits = (refl, refl)

module _ (F : Std) (C : CidApi) {Address U : Type 0} (api : GoApi Address) (handle : ℕ)
    (s : GoState Address U) where
  -- On a registered handle, `get`, `has` and `put_keyed` ask the registered store once, for the bytes
  -- of the CID, and answer what it answers; an absent block is an answer, any other error of the store
  -- and a panic of it are an error. The registry stays. Lengths fit in an `i32`, also that of the
  -- block that the store hands over.
  pub registered-answers :
      (x : Externs Address U) (k : C.Cid) (block : List ℕ)
      → lookup_externs handle s ≡ some x
      → length (C.to_bytes k) < 2 ^ 31
      → length block < 2 ^ 31
      → ViewFits (x.view (C.to_bytes k) s.user).0
      → let viewed = x.view (C.to_bytes k) s.user in
        let found = x.has (C.to_bytes k) s.user in
        let stored = x.put (C.to_bytes k) block s.user in
        let g = get F C (go_side api) handle k s in
        let h = has F C (go_side api) handle k s in
        let p = put_keyed F C (go_side api) handle k block s in
        (ending g.0 ≡ view_ending viewed.0)
        × (g.1 ≡ record s { user = viewed.1 })
        × (ending h.0 ≡ has_ending found.0)
        × (h.1 ≡ record s { user = found.1 })
        × (ending p.0 ≡ put_ending stored.0)
        × (p.1 ≡ record s { user = stored.1 })
  unfolding get has put_keyed cgo_blockstore_get cgo_blockstore_has cgo_blockstore_put
  registered-answers x k block registered short small fits = ground (
    arith,
    go_bytes_whole api.negative (C.to_bytes k),
    go_bytes_whole api.negative block,
    view_code-ending F handle api.wild (x.view (C.to_bytes k) s.user).0
        (record s { user = (x.view (C.to_bytes k) s.user).1 }) fits,
  )

  -- A batch that has begun is one call of the Go side, which does not find the handle.
  send_all-unregistered :
      (c : C.Cid × List ℕ) (current blocks : Blocks C)
      → lookup_externs handle s ≡ none
      → let sent = send_all F C (go_side api) handle (batches C (c ∷ current) blocks) s in
        (ending sent.0 ≡ unwound) × (sent.1 ≡ s)
  unfolding batches send_all write_batch cgo_blockstore_put_many
  send_all-unregistered c current [] absent = ground arith
  send_all-unregistered c current (x ∷ blocks) absent =
      ground (arith, send_all-unregistered c (current ++ (x ∷ [])) blocks absent)

  -- On a handle that is not registered, every method of the store and of the externs unwinds, and the
  -- Go side is as it was. The CID's length fits in an `i32`; `put_many_keyed` is given a block, and the
  -- crate `cid` writes non-empty CIDs.
  pub unregistered-unwinds :
      {Fault : Type 0} (new_id : ℕ → Address) (from_i64 : ℤ → Option Fault) (k : C.Cid)
      (block : List ℕ) (b : C.Cid × List ℕ) (blocks : Blocks C) (pers round : ℤ)
      (entropy h1 h2 extra : List ℕ)
      → lookup_externs handle s ≡ none
      → WritesCids C
      → length (C.to_bytes k) < 2 ^ 31
      → let g = get F C (go_side api) handle k s in
        let h = has F C (go_side api) handle k s in
        let p = put_keyed F C (go_side api) handle k block s in
        let m = put_many_keyed F C (go_side api) handle (b ∷ blocks) s in
        let c = get_chain_randomness F (go_side api) handle pers round entropy s in
        let d = get_beacon_randomness F (go_side api) handle pers round entropy s in
        let f = verify_consensus_fault F (go_side api) handle new_id from_i64 h1 h2 extra s in
        (ending g.0 ≡ unwound)
        × (g.1 ≡ s)
        × (ending h.0 ≡ unwound)
        × (h.1 ≡ s)
        × (ending p.0 ≡ unwound)
        × (p.1 ≡ s)
        × (ending m.0 ≡ unwound)
        × (m.1 ≡ s)
        × (ending c.0 ≡ unwound)
        × (c.1 ≡ s)
        × (ending d.0 ≡ unwound)
        × (d.1 ≡ s)
        × (ending f.0 ≡ unwound)
        × (f.1 ≡ s)
  unfolding batches get has put_keyed get_chain_randomness get_beacon_randomness
      verify_consensus_fault cgo_blockstore_get cgo_blockstore_has cgo_blockstore_put
      cgo_extern_get_chain_randomness cgo_extern_get_beacon_randomness
      cgo_extern_verify_consensus_fault
  unregistered-unwinds new_id from_i64 k block b blocks pers round entropy h1 h2 extra absent writes
        short =
      ground (
        arith,
        go_bytes_whole api.negative (C.to_bytes k),
        put_many_keyed-send_all F C (go_side api) handle writes (b ∷ blocks) s,
        send_all-unregistered b [] blocks absent,
      )
