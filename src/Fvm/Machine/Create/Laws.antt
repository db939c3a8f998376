-- ===== src/Fvm/Machine/Create/Laws.antt =====
-- Which machine `create_fvm_machine` makes, and when it fails.
use ffi_demo.Base.{ℕ, ◌≡◌, ◌⊎◌, false, none, some, List, [], arith}
use ffi_demo.Base.Effect.{Result, ok, Unwind, returns, Exec}
use ffi_demo.Util.World.{World}
use ffi_demo.Util.Response.{no_error, unclassified_error}
use ffi_demo.Fvm.Cgo.{Std, CgoApi}
use ffi_demo.Fvm.Shared.{FvmShared}
use ffi_demo.Fvm.Blockstore.{CidApi}
use ffi_demo.Fvm.Engine.{NetworkVersion, other_version, FvmApi}
use ffi_demo.Fvm.Machine.{FvmMachine}
use ffi_demo.Fvm.Machine.Create.{
  CreateArgs, network_version_of, manifest_of, machine_context, create_fvm_machine,
}

abbrev pub free_machine : {X : Type 0} → X → FvmMachine X
free_machine x = some (record { machine = some (record { poisoned = false; inner = x }) })

-- The machine in the response, by what the constructor of the FVM's machine did.
abbrev pub machine_of :
    {S : FvmShared} {C : CidApi} {E : Type 0} (api : FvmApi S C E)
    → Unwind (Result api.Machine)
    → FvmMachine api.Executor
machine_of api (returns (ok m)) = free_machine (api.executor_new m)
machine_of api _ = none

module _ (F : Std) {S : FvmShared} {C : CidApi} {E Block : Type 0} (api : FvmApi S C E)
    (go : CgoApi E) (put : C.Code → Block → Exec E C.Cid)
    (put_many : List (C.Code × Block) → Exec E (Unit {0})) (a : CreateArgs) (w : World E) where
  -- The response has a machine, with a free lock, exactly if it has no error.
  pub create_fvm_machine_value :
      let r = (create_fvm_machine F api go put put_many a w).0 in
      ((r.status_code ≡ no_error) × ((x : api.Executor) × (r.value ≡ free_machine x)))
      ⊎ ((r.status_code ≡ unclassified_error) × (r.value ≡ none))
  unfolding create_fvm_machine
  create_fvm_machine_value = ground arith

  -- With a manifest that parses, no bundle is read and nothing is laid over the store, whatever the
  -- network version, if the FVM knows it: the rest is the machine's constructor on the Go state as
  -- it was.
  pub create_fvm_machine_manifest :
      (nv : NetworkVersion) (root manifest : C.Cid)
      → network_version_of F api a.network_version ≡ ok nv
      → C.cid_try_from a.state_root ≡ ok root
      → manifest_of F api a.manifest_cid ≡ ok (some manifest)
      → let run =
          api.machine_new
            (machine_context F api a nv root (some manifest))
            []
            a.blockstore_id
            a.externs_id
            w.ext in
        let out = create_fvm_machine F api go put put_many a w in
        (out.1.ext ≡ run.1) × (out.0.value ≡ machine_of api run.0)
  unfolding create_fvm_machine
  create_fvm_machine_manifest nv root manifest hv hr hm = ground arith

  -- Without a manifest, a version other than 14, 15 and 16 is an error, and the Go side is not called.
  pub create_fvm_machine_unsupported :
      (n : ℕ) (root : C.Cid)
      → network_version_of F api a.network_version ≡ ok (other_version n)
      → C.cid_try_from a.state_root ≡ ok root
      → a.manifest_cid ≡ []
      → let out = create_fvm_machine F api go put put_many a w in
        (out.0.error_msg ≡ "couldn't load builtin actors: unsupported network version")
        × (out.0.status_code ≡ unclassified_error)
        × (out.1.ext ≡ w.ext)
  unfolding create_fvm_machine
  create_fvm_machine_unsupported n root hv hr hm = ground arith
