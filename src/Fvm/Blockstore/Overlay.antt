-- ===== src/Fvm/Blockstore/Overlay.antt =====
-- rust/src/fvm/blockstore/overlay.rs: a read-only map in front of a store.
pub mod Laws
use ffi_demo.Base.{ℕ, Bool, true, Option, none, some, List}
use ffi_demo.Base.Map.{Map, lookup}
use ffi_demo.Base.Effect.{Result, Exec, pure}
use ffi_demo.Fvm.Blockstore.{CidApi, Blockstore}

module _ {C : CidApi} {Block : Type 0} where
  pub record OverlayBlockstore (B : Blockstore C Block) : Type 0 where
    pub over : Map C.Cid (List ℕ)
    pub base : B.State

  module _ (B : Blockstore C Block) where
    unfoldable pub new : Map C.Cid (List ℕ) → B.State → OverlayBlockstore B
    new overlay base = record { over = overlay; base = base }

    -- A method of the base.
    on_base : {A : Type 0} → Exec B.State A → Exec (OverlayBlockstore B) A
    on_base m s = let (r, b) = m s.base in (r, record s { base = b })

    unfoldable pub get : C.Cid → Exec (OverlayBlockstore B) (Option (List ℕ))
    unfolding on_base
    get k s = elim (lookup C.cid_dec k s.over) [
      | some blk ↦ pure (some blk) s
      | none ↦ on_base (B.get k) s
    ]

    unfoldable pub put_keyed : C.Cid → List ℕ → Exec (OverlayBlockstore B) (Unit {0})
    unfolding on_base
    put_keyed k block = on_base (B.put_keyed k block)

    -- `contains_key(k) || base.has(k)?`: the base is asked only if the map has no block
    unfoldable pub has : C.Cid → Exec (OverlayBlockstore B) Bool
    unfolding on_base
    has k s = elim (lookup C.cid_dec k s.over) [ some _ ↦ pure true s | none ↦ on_base (B.has k) s ]

    unfoldable pub put : C.Code → Block → Exec (OverlayBlockstore B) C.Cid
    unfolding on_base
    put mh_code block = on_base (B.put mh_code block)

    unfoldable pub put_many : List (C.Code × Block) → Exec (OverlayBlockstore B) (Unit {0})
    unfolding on_base
    put_many blocks = on_base (B.put_many blocks)

    unfoldable pub put_many_keyed : List (C.Cid × List ℕ) → Exec (OverlayBlockstore B) (Unit {0})
    unfolding on_base
    put_many_keyed blocks = on_base (B.put_many_keyed blocks)

    -- `impl Blockstore for OverlayBlockstore`
    abbrev pub overlay_blockstore : Blockstore C Block
    overlay_blockstore = record {
      State = OverlayBlockstore B;
      get = get;
      put_keyed = put_keyed;
      has = has;
      put = put;
      put_many = put_many;
      put_many_keyed = put_many_keyed;
    }
