-- ===== src/Fvm/Blockstore.antt =====
-- rust/src/fvm/blockstore: the trait `Blockstore` of the crate `fvm_ipld_blockstore` as an interface,
-- and what the stores use of the crate `cid`. The stores are in the modules below.
pub mod Overlay
pub mod Fake
pub mod Cgo
pub mod Batches
use ffi_demo.Base.{ℕ, Bool, Option, List}
use ffi_demo.Base.Effect.{Result, Exec}

-- `cid::Cid` and `cid::multihash`
pub record CidApi : Type 1 where
  pub Cid : Type 0
  pub Code : Type 0
  pub Multihash : Type 0
  pub cid_dec : Discrete Cid
  pub multihash_dec : Discrete Multihash
  pub hash : Cid → Multihash
  -- `Multihash::code`, `Code::try_from` and `Code::digest`
  pub code : Multihash → ℕ
  pub code_try_from : ℕ → Option Code
  pub digest : Code → List ℕ → Multihash
  pub to_bytes : Cid → List ℕ
  -- the bytes that `write_bytes` appends to a `Vec`
  pub write_bytes : Cid → Result (List ℕ)
  -- `Cid::try_from` of a byte slice
  pub cid_try_from : List ℕ → Result Cid

-- The trait, for a store with a state and for blocks of type `Block`.
pub record Blockstore (C : CidApi) (Block : Type 0) : Type 1 where
  pub State : Type 0
  pub get : C.Cid → Exec State (Option (List ℕ))
  pub put_keyed : C.Cid → List ℕ → Exec State (Unit {0})
  pub has : C.Cid → Exec State Bool
  pub put : C.Code → Block → Exec State C.Cid
  pub put_many : List (C.Code × Block) → Exec State (Unit {0})
  pub put_many_keyed : List (C.Cid × List ℕ) → Exec State (Unit {0})
