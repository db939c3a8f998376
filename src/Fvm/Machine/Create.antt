-- ===== src/Fvm/Machine/Create.antt =====
-- rust/src/fvm/machine.rs: `import_actors` and `create_fvm_machine`.
pub mod Laws
use ffi_demo.Base.{
  ℕ, ◌%◌, ◌^◌, String, ◌<>◌, Bool, true, false, Option, none, some, List, [], ◌∷◌, ◌++◌,
}
use ffi_demo.Base.Bits.{join_u64}
use ffi_demo.Base.Int.{as_i64}
use ffi_demo.Base.Map.{Map}
use ffi_demo.Base.Effect.{
  message, owned, display, Result, ok, err, Unwind, returns, panics, Exec, pure, raise, panic, lift,
  continue, ◌>>=◌, ◌>>◌,
}
use ffi_demo.Util.World.{World, info, outside}
use ffi_demo.Util.Response.{Response}
use ffi_demo.Util.CatchPanic.{catch_panic_response_no_default}
use ffi_demo.Fvm.Cgo.{Std, CgoApi}
use ffi_demo.Fvm.Shared.{FvmShared}
use ffi_demo.Fvm.Blockstore.{CidApi, Blockstore}
use ffi_demo.Fvm.Blockstore.Cgo
use ffi_demo.Fvm.Blockstore.Fake
use ffi_demo.Fvm.Blockstore.Fake.{FakeBlockstore}
use ffi_demo.Fvm.Engine.{NetworkVersion, v14, v15, v16, other_version, FvmApi}
use ffi_demo.Fvm.Machine.{FvmRegisteredVersion, v1, Mutex, InnerFvmMachine, FvmMachine}

-- `.map_err(|err| anyhow!("<prefix>{}", err))`
unfoldable pub map_err {ℓ} : {A : Type ℓ} → String → Result A → Result A
map_err prefix (ok a) = ok a
map_err prefix (err e) = err (message (prefix <> display e))

module _ {S : FvmShared} {C : CidApi} {E : Type 0} (api : FvmApi S C E) {Block : Type 0}
    (B : Blockstore C Block) where
  -- `.await.unwrap()`, `assert_eq!(roots.len(), 1)` and `roots[0]`
  only_root : Unwind (Result (List C.Cid)) → Unwind (Result (Option C.Cid))
  only_root (returns (ok (root ∷ []))) = returns (ok (some root))
  only_root (returns (ok _)) = panics (owned "assertion failed: `(left == right)`")
  only_root (returns (err e)) = panics (owned "called `Result::unwrap()` on an `Err` value")
  only_root (panics p) = panics p

  load_bundle : List ℕ → Exec B.State (Option C.Cid)
  unfolding only_root
  load_bundle car s = let (r, s') = api.load_car B car s in (only_root r, s')

  import_for : NetworkVersion → Exec B.State (Option C.Cid)
  unfolding load_bundle
  import_for v14 = load_bundle api.bundle_car_v6
  import_for v15 = load_bundle api.bundle_car_v7
  import_for v16 = pure none
  import_for (other_version _) = raise (message "unsupported network version")

  unfoldable pub import_actors : Option C.Cid → NetworkVersion → Exec B.State (Option C.Cid)
  unfolding import_for
  import_actors (some cid) network_version = pure (some cid)
  import_actors none network_version = import_for network_version

-- `map_err` on a call that may also unwind.
unfoldable pub map_unwind {ℓ} : {A : Type ℓ} → String → Unwind (Result A) → Unwind (Result A)
unfolding map_err
map_unwind prefix (returns r) = returns (map_err prefix r)
map_unwind prefix (panics p) = panics p

-- The arguments of `create_fvm_machine`.
pub record CreateArgs : Type 0 where
  pub fvm_version : FvmRegisteredVersion
  pub chain_epoch : ℕ
  pub base_fee_hi : ℕ
  pub base_fee_lo : ℕ
  pub base_circ_supply_hi : ℕ
  pub base_circ_supply_lo : ℕ
  pub network_version : ℕ
  pub state_root : List ℕ
  pub manifest_cid : List ℕ
  pub tracing : Bool
  pub blockstore_id : ℕ
  pub externs_id : ℕ

-- `info!("using FVM V1")`
log_version : {E : Type 0} → FvmRegisteredVersion → Exec (World E) (Unit {0})
log_version v1 w = pure tt (info "using FVM V1" w)

module _ (F : Std) {S : FvmShared} {C : CidApi} {E : Type 0} (api : FvmApi S C E) where
  -- `network_version as u32`
  unfoldable pub network_version_of : ℕ → Result NetworkVersion
  network_version_of n = elim (api.network_version_try_from (n % 2 ^ 32)) [
    | some v ↦ ok v
    | none ↦ err (message ("unsupported network version: " <> F.show_u64 n))
  ]

  -- No bytes: no manifest.
  unfoldable pub manifest_of : List ℕ → Result (Option C.Cid)
  unfolding map_err
  manifest_of [] = ok none
  manifest_of (b ∷ bytes) = elim (map_err "invalid manifest: " (C.cid_try_from (b ∷ bytes))) [
    | ok cid ↦ ok (some cid)
    | err e ↦ err e
  ]

  override_with : Option C.Cid → api.NetworkConfig → api.NetworkConfig
  override_with none config = config
  override_with (some manifest) config = api.override_actors manifest config

  unfoldable pub traced : Bool → api.MachineContext → api.MachineContext
  traced true context = api.enable_tracing context
  traced false context = context

  -- `network_config` and `machine_context`
  unfoldable pub machine_context :
      CreateArgs → NetworkVersion → C.Cid → Option C.Cid → api.MachineContext
  unfolding override_with traced join_u64
  machine_context a network_version state_root manifest =
      let config = override_with manifest (api.network_config_new network_version) in
      let context = api.for_epoch (as_i64 a.chain_epoch) state_root config in
      let base_fee = S.amount_from (join_u64 a.base_fee_hi a.base_fee_lo) in
      let supply = S.amount_from (join_u64 a.base_circ_supply_hi a.base_circ_supply_lo) in
      traced a.tracing (api.set_circulating_supply supply (api.set_base_fee base_fee context))

  -- The provided methods of the trait for the Go store, and the Go side itself.
  module _ {Block : Type 0} (go : CgoApi E) (put : C.Code → Block → Exec E C.Cid)
      (put_many : List (C.Code × Block) → Exec E (Unit {0})) where
    abbrev pub go_store : ℕ → Blockstore C Block
    go_store handle = Cgo.cgo_blockstore F C go handle put put_many

    -- the map of the fake store beside the manifest
    with_over :
        Unwind (Result (Option C.Cid))
        → Map C.Cid (List ℕ)
        → Unwind (Result (Option C.Cid × Map C.Cid (List ℕ)))
    with_over (returns (ok m)) over = returns (ok (m, over))
    with_over (returns (err e)) over = returns (err e)
    with_over (panics p) over = panics p

    -- `FakeBlockstore::new(CgoBlockstore::new(..))`, `import_actors` into it, and `finish`
    unfoldable pub import_builtin :
        ℕ → Option C.Cid → NetworkVersion → Exec (World E) (Option C.Cid × Map C.Cid (List ℕ))
    unfolding with_over import_actors map_unwind Fake.new
    import_builtin handle manifest network_version w =
        let B = go_store handle in
        let (r, s) =
          import_actors api (Fake.fake_blockstore B) manifest network_version (Fake.new B w.ext) in
        (
          with_over (map_unwind "couldn't load builtin actors: " r) s.fake_blocks,
          record w { ext = s.base },
        )

    -- `DefaultMachine::new`
    unfoldable pub new_machine :
        CreateArgs → api.MachineContext → Map C.Cid (List ℕ) → Exec (World E) api.Machine
    unfolding map_unwind
    new_machine a context over = outside λ e.
        let (r, e') = api.machine_new context over a.blockstore_id a.externs_id e in
        (map_unwind "failed to create machine: " r, e')

    unfoldable pub create_body : CreateArgs → Exec (World E) (FvmMachine api.Executor)
    unfolding log_version network_version_of manifest_of import_builtin machine_context new_machine
    create_body a = do
      log_version a.fvm_version
      network_version ← lift (network_version_of a.network_version)
      state_root ← lift (map_err "invalid state root: " (C.cid_try_from a.state_root))
      manifest_cid ← lift (manifest_of a.manifest_cid)
      (manifest, over) ← import_builtin a.blockstore_id manifest_cid network_version
      machine ← new_machine a (machine_context a network_version state_root manifest) over
      pure (
          some (record {
            machine = some (record { poisoned = false; inner = api.executor_new machine });
          }))

    -- The zeroed value of the response is the null pointer, `None`.
    unfoldable pub create_fvm_machine :
        CreateArgs → World E → Response (FvmMachine api.Executor) × World E
    unfolding catch_panic_response_no_default create_body
    create_fvm_machine a = catch_panic_response_no_default none "create_fvm_machine" (create_body a)
