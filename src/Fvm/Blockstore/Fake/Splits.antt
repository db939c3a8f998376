-- ===== src/Fvm/Blockstore/Fake/Splits.antt =====
-- What `put_many_keyed` of the fake store has done when it ends, also when a put of the base fails.
use ffi_demo.Base.{
  ℕ, ◌≡◌, ◌≢◌, ◌⊎◌, inl, inr, refl, Bool-cases, true, false, List, [], ◌∷◌, ◌++◌, arith,
}
use ffi_demo.Base.Map.{insert, insert_all}
use ffi_demo.Base.Effect.{Result, ok, err, Unwind, returns, panics}
use ffi_demo.Fvm.Blockstore.{CidApi, Blockstore}
use ffi_demo.Fvm.Blockstore.Fake.{FakeBlockstore, hash_matches, put_many_keyed}
use ffi_demo.Fvm.Blockstore.Fake.Laws.{right_blocks, wrong_blocks, base_puts}

module _ {C : CidApi} {Block : Type 0} (B : Blockstore C Block) where
  -- The store has dealt with the first blocks, and stopped at them only if a put failed.
  abbrev pub DoneWith :
      List (C.Cid × List ℕ)
      → FakeBlockstore B
      → List (C.Cid × List ℕ)
      → List (C.Cid × List ℕ)
      → Type 0
  DoneWith blocks s first left =
      let out = put_many_keyed B blocks s in
      let run = base_puts B (right_blocks C first) s.base in
      (blocks ≡ first ++ left)
      × (out.0 ≡ run.0)
      × (out.1.base ≡ run.1)
      × (out.1.fake_blocks ≡ insert_all C.cid_dec (wrong_blocks C first) s.fake_blocks)
      × ((left ≡ []) ⊎ (out.0 ≢ returns (ok tt)))

  wrong-DoneWith :
      (k : C.Cid) (b : List ℕ) (l first left : List (C.Cid × List ℕ)) (s : FakeBlockstore B)
      → hash_matches C k b ≡ false
      → DoneWith l (record s { fake_blocks = insert C.cid_dec k b s.fake_blocks }) first left
      → DoneWith ((k, b) ∷ l) s ((k, b) ∷ first) left
  unfolding put_many_keyed base_puts insert_all right_blocks wrong_blocks
  wrong-DoneWith k b l first left s h d = ground arith

  right-DoneWith :
      (k : C.Cid) (b : List ℕ) (l first left : List (C.Cid × List ℕ)) (s : FakeBlockstore B)
      → hash_matches C k b ≡ true
      → (B.put_keyed k b s.base).0 ≡ returns (ok tt)
      → DoneWith l (record s { base = (B.put_keyed k b s.base).1 }) first left
      → DoneWith ((k, b) ∷ l) s ((k, b) ∷ first) left
  unfolding put_many_keyed base_puts insert_all right_blocks wrong_blocks
  right-DoneWith k b l first left s h e d = ground arith

  failed-DoneWith :
      (k : C.Cid) (b : List ℕ) (l : List (C.Cid × List ℕ)) (s : FakeBlockstore B)
      → hash_matches C k b ≡ true
      → (B.put_keyed k b s.base).0 ≢ returns (ok tt)
      → DoneWith ((k, b) ∷ l) s ((k, b) ∷ []) l
  unfolding put_many_keyed base_puts insert_all right_blocks wrong_blocks
  failed-DoneWith k b l s h e = ground arith

  -- Whether a put succeeded.
  put_cases : (r : Unwind (Result (Unit {0}))) → (r ≡ returns (ok tt)) ⊎ (r ≢ returns (ok tt))
  put_cases (returns (ok tt)) = inl refl
  put_cases (returns (err e)) = inr (λ h. absurd (cc))
  put_cases (panics p) = inr (λ h. absurd (cc))

  -- `put_many_keyed` has dealt with some first blocks: it has given the base those whose CID is right, in
  -- order, one `put_keyed` each, and has put the others into the map, the last one of a CID that comes
  -- twice. It ends as the puts of the base end, and leaves blocks over only if it did not succeed.
  pub put_many_keyed_splits :
      (blocks : List (C.Cid × List ℕ)) (s : FakeBlockstore B)
      → (first left : List (C.Cid × List ℕ)) × DoneWith blocks s first left
  unfolding put_many_keyed base_puts insert_all right_blocks wrong_blocks
  put_many_keyed_splits [] s = ([], [], (refl, refl, refl, refl, inl refl))
  put_many_keyed_splits ((k, b) ∷ l) s = elim (Bool-cases (hash_matches C k b)) [
    | inr wrong ↦
        let (first, left, d) =
          put_many_keyed_splits l (record s { fake_blocks = insert C.cid_dec k b s.fake_blocks }) in
        ((k, b) ∷ first, left, wrong-DoneWith k b l first left s wrong d)
    | inl right ↦ elim (put_cases (B.put_keyed k b s.base).0) [
      | inr failed ↦ ((k, b) ∷ [], l, failed-DoneWith k b l s right failed)
      | inl stored ↦
          let (first, left, d) =
            put_many_keyed_splits l (record s { base = (B.put_keyed k b s.base).1 }) in
          ((k, b) ∷ first, left, right-DoneWith k b l first left s right stored d)
    ]
  ]
