-- ===== src/Fvm/Blockstore/Fake/Laws.antt =====
-- Where a `FakeBlockstore` puts a block, and what `finish` keeps.
use ffi_demo.Base.{ℕ, ◌≡◌, refl, false, some, List, [], ◌∷◌, if◌then◌else◌, arith}
use ffi_demo.Base.Map.{insert, insert_all, lookup-insert}
use ffi_demo.Base.Effect.{ok, returns, Exec, pure, ◌>>◌}
use ffi_demo.Fvm.Blockstore.{CidApi, Blockstore}
use ffi_demo.Fvm.Blockstore.Overlay
use ffi_demo.Fvm.Blockstore.Overlay.{OverlayBlockstore}
use ffi_demo.Fvm.Blockstore.Fake.{
  FakeBlockstore, hash_matches, get, put_keyed, has, put_many_keyed, finish,
}

module _ (C : CidApi) where
  -- The blocks whose CID is right, and those whose CID is not, in order.
  unfoldable pub right_blocks : List (C.Cid × List ℕ) → List (C.Cid × List ℕ)
  right_blocks [] = []
  right_blocks ((k, b) ∷ l) =
      let rest = right_blocks l in if hash_matches C k b then (k, b) ∷ rest else rest

  unfoldable pub wrong_blocks : List (C.Cid × List ℕ) → List (C.Cid × List ℕ)
  wrong_blocks [] = []
  wrong_blocks ((k, b) ∷ l) =
      let rest = wrong_blocks l in if hash_matches C k b then rest else (k, b) ∷ rest

module _ {C : CidApi} {Block : Type 0} (B : Blockstore C Block) where
  -- One `put_keyed` of the base for each block.
  unfoldable pub base_puts : List (C.Cid × List ℕ) → Exec B.State (Unit {0})
  base_puts [] = pure tt
  base_puts ((k, b) ∷ l) = B.put_keyed k b >> base_puts l

  -- `put_many_keyed` gives the base the blocks whose CID is right, in order, one `put_keyed` each,
  -- and nothing else; it ends as these puts end.
  pub put_many_keyed-base :
      (blocks : List (C.Cid × List ℕ)) (s : FakeBlockstore B)
      → ((put_many_keyed B blocks s).0 ≡ (base_puts (right_blocks C blocks) s.base).0)
        × ((put_many_keyed B blocks s).1.base ≡ (base_puts (right_blocks C blocks) s.base).1)
  unfolding put_many_keyed base_puts right_blocks
  put_many_keyed-base [] s = (refl, refl)
  put_many_keyed-base ((k, b) ∷ l) s = ground (
    arith,
    put_many_keyed-base l (record s { base = (B.put_keyed k b s.base).1 }),
    put_many_keyed-base l (record s { fake_blocks = insert C.cid_dec k b s.fake_blocks }),
  )

  -- If the puts of the base succeed, the blocks whose CID is wrong are in the map, the last one of a
  -- CID that comes twice, and the map has not lost any other.
  pub put_many_keyed-fakes :
      (blocks : List (C.Cid × List ℕ)) (s : FakeBlockstore B)
      → (base_puts (right_blocks C blocks) s.base).0 ≡ returns (ok tt)
      → (put_many_keyed B blocks s).1.fake_blocks
        ≡ insert_all C.cid_dec (wrong_blocks C blocks) s.fake_blocks
  unfolding put_many_keyed base_puts insert_all right_blocks wrong_blocks
  put_many_keyed-fakes [] s h = refl
  put_many_keyed-fakes ((k, b) ∷ l) s h = ground (
    arith,
    put_many_keyed-fakes l (record s { base = (B.put_keyed k b s.base).1 }),
    put_many_keyed-fakes l (record s { fake_blocks = insert C.cid_dec k b s.fake_blocks }),
  )

  -- After `finish`, the overlay answers `get` and `has` as the store did, and leaves the same store
  -- behind.
  pub finish-get-has :
      (k : C.Cid) (s : FakeBlockstore B)
      → ((Overlay.get B k (finish B s)).0 ≡ (get B k s).0)
        × ((Overlay.get B k (finish B s)).1 ≡ finish B (get B k s).1)
        × ((Overlay.has B k (finish B s)).0 ≡ (has B k s).0)
        × ((Overlay.has B k (finish B s)).1 ≡ finish B (has B k s).1)
  unfolding get has finish Overlay.get Overlay.has
  finish-get-has k s = ground arith

  -- A block that is put under a CID of another block is found again under that CID, through the
  -- store and after `finish`, and the base has not been touched.
  pub put_keyed-wrong :
      (k : C.Cid) (block : List ℕ) (s : FakeBlockstore B)
      → hash_matches C k block ≡ false
      → ((put_keyed B k block s).1.base ≡ s.base)
        × ((get B k (put_keyed B k block s).1).0 ≡ returns (ok (some block)))
        × ((Overlay.get B k (finish B (put_keyed B k block s).1)).0 ≡ returns (ok (some block)))
  unfolding get put_keyed finish Overlay.get
  put_keyed-wrong k block s h = ground (arith, lookup-insert C.cid_dec k k block s.fake_blocks)
