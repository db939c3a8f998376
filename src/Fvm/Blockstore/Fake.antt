-- ===== src/Fvm/Blockstore/Fake.antt =====
-- rust/src/fvm/blockstore/fake.rs: a store that keeps blocks with wrong CIDs in memory.
pub mod Laws
pub mod Splits
use mathlib.Core.Logic.{ite}
use ffi_demo.Base.{ℕ, Bool, true, false, Option, none, some, List, [], ◌∷◌, if◌then◌else◌}
use ffi_demo.Base.Map.{Map, lookup, insert}
use ffi_demo.Base.Effect.{Result, Exec, pure, ◌>>=◌, ◌>>◌}
use ffi_demo.Fvm.Blockstore.{CidApi, Blockstore}
use ffi_demo.Fvm.Blockstore.Overlay
use ffi_demo.Fvm.Blockstore.Overlay.{OverlayBlockstore}

-- Does the hash of the CID belong to the block? The condition of `put_keyed`.
unfoldable pub hash_matches : (C : CidApi) → C.Cid → List ℕ → Bool
hash_matches C k block = elim (C.code_try_from (C.code (C.hash k))) [
  | some code ↦ ite (C.multihash_dec (C.digest code block) (C.hash k)) true false
  | none ↦ false
]

module _ {C : CidApi} {Block : Type 0} where
  pub record FakeBlockstore (B : Blockstore C Block) : Type 0 where
    pub fake_blocks : Map C.Cid (List ℕ)
    pub base : B.State

  module _ (B : Blockstore C Block) where
    unfoldable pub new : B.State → FakeBlockstore B
    new bs = record { fake_blocks = []; base = bs }

    on_base : {A : Type 0} → Exec B.State A → Exec (FakeBlockstore B) A
    on_base m s = let (r, b) = m s.base in (r, record s { base = b })

    unfoldable pub get : C.Cid → Exec (FakeBlockstore B) (Option (List ℕ))
    unfolding on_base
    get k s = elim (lookup C.cid_dec k s.fake_blocks) [
      | some blk ↦ pure (some blk) s
      | none ↦ on_base (B.get k) s
    ]

    unfoldable pub put_keyed : C.Cid → List ℕ → Exec (FakeBlockstore B) (Unit {0})
    unfolding on_base hash_matches
    put_keyed k block s =
        if hash_matches C k block
        then on_base (B.put_keyed k block) s
        else pure tt (record s { fake_blocks = insert C.cid_dec k block s.fake_blocks })

    unfoldable pub has : C.Cid → Exec (FakeBlockstore B) Bool
    unfolding on_base
    has k s = elim (lookup C.cid_dec k s.fake_blocks) [
      | some _ ↦ pure true s
      | none ↦ on_base (B.has k) s
    ]

    unfoldable pub put : C.Code → Block → Exec (FakeBlockstore B) C.Cid
    unfolding on_base
    put mh_code block = on_base (B.put mh_code block)

    unfoldable pub put_many : List (C.Code × Block) → Exec (FakeBlockstore B) (Unit {0})
    unfolding on_base
    put_many blocks = on_base (B.put_many blocks)

    unfoldable pub put_many_keyed : List (C.Cid × List ℕ) → Exec (FakeBlockstore B) (Unit {0})
    unfolding put_keyed
    put_many_keyed [] = pure tt
    put_many_keyed ((c, b) ∷ blocks) = put_keyed c b >> put_many_keyed blocks

    -- `impl Blockstore for FakeBlockstore`
    abbrev pub fake_blockstore : Blockstore C Block
    fake_blockstore = record {
      State = FakeBlockstore B;
      get = get;
      put_keyed = put_keyed;
      has = has;
      put = put;
      put_many = put_many;
      put_many_keyed = put_many_keyed;
    }

    unfoldable pub finish : FakeBlockstore B → OverlayBlockstore B
    unfolding Overlay.new
    finish s = Overlay.new B s.fake_blocks s.base
