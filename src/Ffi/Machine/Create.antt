-- ===== src/Ffi/Machine/Create.antt =====
-- What `CreateFVM` hands to the constructor of the FVM's machine, and what it leaves when it fails.
use ffi_demo.Base.{
  ℕ, ◌^◌, ◌<◌, ◌≡◌, refl, sym, ap, ◌∙◌, ◌⊎◌, inl, inr, String, ◌<>◌, none, some, List, [], arith,
}
use ffi_demo.Base.Int.{ℤ, pos, InI64, as_i64-as_u64}
use ffi_demo.Base.Bits.{join_u64}
use ffi_demo.Base.Effect.{Error, message, display, ok, err, returns, Exec}
use ffi_demo.Util.World.{World}
use ffi_demo.Util.Response.{Response, no_error, unclassified_error}
use ffi_demo.Fvm.Cgo.{Std}
use ffi_demo.Fvm.Shared.{FvmShared}
use ffi_demo.Fvm.Blockstore.{CidApi}
use ffi_demo.Fvm.Engine.{NetworkVersion, FvmApi}
use ffi_demo.Fvm.Machine.{FvmMachine}
use ffi_demo.Fvm.Machine.Create.{
  network_version_of, manifest_of, traced, machine_context, create_fvm_machine,
}
use ffi_demo.Fvm.Machine.Create.Laws.{
  free_machine, machine_of, create_fvm_machine_value, create_fvm_machine_manifest,
}
use ffi_demo.Go.{GoState, register, lookup_externs}
use ffi_demo.Go.Store.{GoApi}
use ffi_demo.Go.Chain.{go_side}
use ffi_demo.Go.Handles.{registered}
use ffi_demo.Ffi.BigInt.{InU128, split_big_int-reform}
use ffi_demo.Ffi.Machine.{
  wrap, FvmOpts, create_args, create_machine, map_result, check_err, register_and_create,
  create_fvm,
}

-- A response with a machine has no error.
check_err-machine :
    {X : Type 0} (resp : Response (FvmMachine X)) (x : X)
    → ((resp.status_code ≡ no_error) × ((y : X) × (resp.value ≡ free_machine y)))
      ⊎ ((resp.status_code ≡ unclassified_error) × (resp.value ≡ none))
    → resp.value ≡ free_machine x
    → check_err resp ≡ ok (free_machine x)
unfolding check_err
check_err-machine resp x (inl (status, rest)) e = ground arith
check_err-machine resp x (inr (status, nothing)) e = absurd (ground arith)

module _ (F : Std) {S : FvmShared} {C : CidApi} {Address U : Type 0} (G : GoApi Address)
    (api : FvmApi S C (GoState Address U)) {Block : Type 0}
    (put : C.Code → Block → Exec (GoState Address U) C.Cid)
    (put_many : List (C.Code × Block) → Exec (GoState Address U) (Unit {0})) (show : ℤ → String)
    (opts : FvmOpts Address U) (w : World (GoState Address U)) where
  -- The machine's configuration, from the options.
  abbrev pub context_of : NetworkVersion → C.Cid → C.Cid → ℕ → ℕ → api.MachineContext
  context_of nv root manifest fee supply =
      let config = api.override_actors manifest (api.network_config_new nv) in
      let context = api.for_epoch opts.epoch root config in
      traced F api opts.tracing (
        api.set_circulating_supply (S.amount_from supply)
          (api.set_base_fee (S.amount_from fee) context))

  -- An amount that is no `u128` is an error, before anything is registered.
  pub create_fvm-amounts :
      (¬ (InU128 opts.base_fee)) ⊎ (¬ (InU128 opts.base_circ_supply))
      → (e : Error) × (create_fvm F G api put put_many show opts w ≡ (err e, w))
  unfolding create_fvm wrap
  create_fvm-amounts h = elim (split_big_int-reform show opts.base_fee) [
    | inr (bad, (e, fails)) ↦
        (message ("invalid basefee: " <> display e), rw (create_fvm, fails) refl)
    | inl (fee, (hi, lo, fits, back, join, high, low)) ↦
        elim (split_big_int-reform show opts.base_circ_supply) [
          | inr (bad, (e, fails)) ↦
              (message ("invalid circ supply: " <> display e), rw (create_fvm, fits, fails) refl)
          | inl (supply, more) ↦ elim h [
            | inl out ↦ absurd (out fee)
            | inr out ↦ absurd (out supply)
          ]
        ]
  ]

  -- Both amounts are split, and the rest runs on their words.
  create_fvm-words :
      InU128 opts.base_fee
      → InU128 opts.base_circ_supply
      → (fee_hi fee_lo supply_hi supply_lo : ℕ) × (create_fvm F G api put put_many show opts w
          ≡ register_and_create F G api put put_many show opts
              (fee_hi, fee_lo)
              (supply_hi, supply_lo)
              w)
        × (pos (join_u64 fee_hi fee_lo) ≡ opts.base_fee)
        × (pos (join_u64 supply_hi supply_lo) ≡ opts.base_circ_supply)
  unfolding create_fvm wrap
  create_fvm-words hf hs = elim (split_big_int-reform show opts.base_fee) [
    | inr (bad, rest) ↦ absurd (bad hf)
    | inl (fee, (fhi, flo, ffits, fback, fjoin, fhigh, flow)) ↦
        elim (split_big_int-reform show opts.base_circ_supply) [
          | inr (bad, rest) ↦ absurd (bad hs)
          | inl (supply, (shi, slo, sfits, sback, sjoin, shigh, slow)) ↦
              (fhi, flo, shi, slo, rw (create_fvm, ffits, sfits) refl, fjoin, sjoin)
        ]
  ]

  module _ (nv : NetworkVersion) (root manifest : C.Cid) (fee supply : ℕ) where
    -- What the Rust function does with the words of the amounts.
    machine_context-create_args :
        (fhi flo shi slo handle : ℕ)
        → InI64 opts.epoch
        → join_u64 fhi flo ≡ fee
        → join_u64 shi slo ≡ supply
        → machine_context F api
            (create_args F G api put put_many show opts (fhi, flo) (shi, slo) handle)
            nv
            root
            (some manifest)
          ≡ context_of nv root manifest fee supply
    unfolding machine_context create_args
    machine_context-create_args fhi flo shi slo handle he jf js =
        rw (sym jf, sym js, as_i64-as_u64 opts.epoch he) refl

    -- What Rust makes, for the Go side.
    create_machine-made :
        (fhi flo shi slo : ℕ) (m : api.Machine)
        → network_version_of F api opts.network_version ≡ ok nv
        → C.cid_try_from opts.state_base ≡ ok root
        → manifest_of F api opts.manifest ≡ ok (some manifest)
        → InI64 opts.epoch
        → join_u64 fhi flo ≡ fee
        → join_u64 shi slo ≡ supply
        → let (handle, go) = register opts.externs w.ext in
          let run = api.machine_new (context_of nv root manifest fee supply) [] handle handle go in
          run.0 ≡ returns (ok m)
          → let out = register_and_create F G api put put_many show opts (fhi, flo) (shi, slo) w in
            (out.0 ≡ ok (record { executor = free_machine (api.executor_new m); handle = handle }))
            × (out.1.ext ≡ run.1)
    unfolding register_and_create create_machine create_args map_result
    create_machine-made fhi flo shi slo m hv hr hm he jf js made =
        let (handle, go) = register opts.externs w.ext in
        let w' : World (GoState Address U) = record w { ext = go } in
        let a = create_args F G api put put_many show opts (fhi, flo) (shi, slo) handle in
        let (ext, value) =
          create_fvm_machine_manifest F api (go_side G) put put_many a w' nv root manifest hv hr
            hm in
        let same = machine_context-create_args fhi flo shi slo handle he jf js in
        let context_run = ap (λ c. api.machine_new c [] handle handle go) same in
        let machine : (create_fvm_machine F api (go_side G) put put_many a w').0.value
            ≡ free_machine (api.executor_new m) =
          value ∙ ap (machine_of api) (ap (λ r. r.0) context_run ∙ made) in
        let ok_machine =
          check_err-machine _ _ (create_fvm_machine_value F api (go_side G) put put_many a w')
            machine in
        (
          ap (map_result (λ executor. record { executor = executor; handle = handle })) ok_machine,
          ext ∙ ap (λ r. r.1) context_run,
        )

  -- With amounts of a `u128`, an epoch of an `i64`, a version that the FVM knows, and a state root and a
  -- manifest that parse: if the machine's constructor, with the externs in the registry, on the
  -- options' own epoch, fee and supply and on the externs' handle for both the store and the externs,
  -- makes a machine, then `CreateFVM` returns that machine, unlocked, with that handle, and leaves
  -- the state outside as the constructor does.
  pub create_fvm-made :
      (nv : NetworkVersion) (root manifest : C.Cid) (fee supply : ℕ) (m : api.Machine)
      → network_version_of F api opts.network_version ≡ ok nv
      → C.cid_try_from opts.state_base ≡ ok root
      → manifest_of F api opts.manifest ≡ ok (some manifest)
      → InI64 opts.epoch
      → opts.base_fee ≡ pos fee
      → opts.base_circ_supply ≡ pos supply
      → fee < 2 ^ 128
      → supply < 2 ^ 128
      → let (handle, go) = register opts.externs w.ext in
        let run = api.machine_new (context_of nv root manifest fee supply) [] handle handle go in
        run.0 ≡ returns (ok m)
        → let out = create_fvm F G api put put_many show opts w in
          (lookup_externs handle go ≡ some opts.externs)
          × (out.0 ≡ ok (record { executor = free_machine (api.executor_new m); handle = handle }))
          × (out.1.ext ≡ run.1)
  create_fvm-made nv root manifest fee supply m hv hr hm he ef es lf ls made =
      let (fhi, flo, shi, slo, words, jf, js) = create_fvm-words (rw ef lf) (rw es ls) in
      let (result, ext) =
        create_machine-made nv root manifest fee supply fhi flo shi slo m hv hr hm he
          (ground (arith, ef)) (ground (arith, es)) made in
      (registered opts.externs w.ext, ap (λ o. o.0) words ∙ result, ap (λ o. o.1.ext) words ∙ ext)

  state_root_fails :
      (nv : NetworkVersion) (e : Error) (fhi flo shi slo : ℕ)
      → network_version_of F api opts.network_version ≡ ok nv
      → C.cid_try_from opts.state_base ≡ err e
      → let out = register_and_create F G api put put_many show opts (fhi, flo) (shi, slo) w in
        (out.0 ≡ err (message ("invalid state root: " <> display e)))
        × (out.1.ext ≡ (register opts.externs w.ext).1)
  unfolding register_and_create create_machine create_args map_result check_err create_fvm_machine
  state_root_fails nv e fhi flo shi slo hv hr = ground arith

  -- With amounts of a `u128` and a version that the FVM knows, a state root that does not parse is an
  -- error, and the externs stay in the registry, under a handle that nobody has.
  pub create_fvm-leaks :
      (nv : NetworkVersion) (e : Error)
      → InU128 opts.base_fee
      → InU128 opts.base_circ_supply
      → network_version_of F api opts.network_version ≡ ok nv
      → C.cid_try_from opts.state_base ≡ err e
      → let out = create_fvm F G api put put_many show opts w in
        (out.0 ≡ err (message ("invalid state root: " <> display e)))
        × (out.1.ext ≡ (register opts.externs w.ext).1)
        × (lookup_externs (register opts.externs w.ext).0 out.1.ext ≡ some opts.externs)
  create_fvm-leaks nv e hf hs hv hr =
      let (fhi, flo, shi, slo, words, jf, js) = create_fvm-words hf hs in
      let (result, ext) = state_root_fails nv e fhi flo shi slo hv hr in
      let left = ap (λ o. o.1.ext) words ∙ ext in
      (
        ap (λ o. o.0) words ∙ result,
        left,
        ap (lookup_externs (register opts.externs w.ext).0) left ∙ registered opts.externs w.ext,
      )
