-- ===== src/Fvm/Blockstore/Overlay/Laws.antt =====
-- What lies over the base stays, whatever is called.
use ffi_demo.Base.{ℕ, ◌≡◌, refl, some, List, [], ◌∷◌, arith}
use ffi_demo.Base.Map.{lookup}
use ffi_demo.Base.Effect.{ok, returns}
use ffi_demo.Fvm.Blockstore.{CidApi, Blockstore}
use ffi_demo.Fvm.Blockstore.Overlay.{
  OverlayBlockstore, get, put_keyed, has, put, put_many, put_many_keyed,
}

-- A call of the store.
pub data Call (C : CidApi) (Block : Type 0) : Type 0 where
  call_get call_has : C.Cid → Call C Block
  call_put_keyed : C.Cid → List ℕ → Call C Block
  call_put : C.Code → Block → Call C Block
  call_put_many : List (C.Code × Block) → Call C Block
  call_put_many_keyed : List (C.Cid × List ℕ) → Call C Block

module _ {C : CidApi} {Block : Type 0} (B : Blockstore C Block) where
  -- The state after a call, whatever it returns.
  pub after_call : Call C Block → OverlayBlockstore B → OverlayBlockstore B
  after_call (call_get k) s = (get B k s).1
  after_call (call_has k) s = (has B k s).1
  after_call (call_put_keyed k block) s = (put_keyed B k block s).1
  after_call (call_put code block) s = (put B code block s).1
  after_call (call_put_many blocks) s = (put_many B blocks s).1
  after_call (call_put_many_keyed blocks) s = (put_many_keyed B blocks s).1

  pub after_calls : List (Call C Block) → OverlayBlockstore B → OverlayBlockstore B
  after_calls [] s = s
  after_calls (c ∷ calls) s = after_calls calls (after_call c s)

  over-after_call : (c : Call C Block) (s : OverlayBlockstore B) → (after_call c s).over ≡ s.over
  unfolding after_call get has put_keyed put put_many put_many_keyed
  over-after_call (call_get k) s = ground arith
  over-after_call (call_has k) s = ground arith
  over-after_call _ s = refl

  over-after_calls :
      (calls : List (Call C Block)) (s : OverlayBlockstore B) → (after_calls calls s).over ≡ s.over
  unfolding after_calls
  over-after_calls [] s = refl
  over-after_calls (c ∷ calls) s = rw (over-after_calls calls (after_call c s), over-after_call c s)

  -- A block of the overlay is what `get` returns for its CID, after any calls, puts under the same
  -- CID among them, and whatever the base holds or fails with.
  pub get-after_calls :
      (calls : List (Call C Block)) (s : OverlayBlockstore B) (k : C.Cid) (block : List ℕ)
      → lookup C.cid_dec k s.over ≡ some block
      → (get B k (after_calls calls s)).0 ≡ returns (ok (some block))
  unfolding get
  get-after_calls calls s k block h = ground (arith, over-after_calls calls s)
