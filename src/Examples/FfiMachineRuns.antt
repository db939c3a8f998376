-- ===== src/Examples/FfiMachineRuns.antt =====
-- A machine made and used by Go code, over a small FVM whose calls count in the state of the user.
use ffi_demo.Base.{
  ℕ, suc, ◌≡◌, refl, ◌⊎◌, ◌^◌, ◌<◌, String, true, false, Option, none, some, List, [], ◌∷◌, arith,
}
use ffi_demo.Base.Bits.{join_u64}
use ffi_demo.Base.Int.{ℤ, pos}
use ffi_demo.Base.Effect.{Error, message, Result, ok, err, Unwind, returns}
use ffi_demo.Fvm.Engine.{v16, FvmApi}
use ffi_demo.Fvm.Machine.{v1}
use ffi_demo.Fvm.Machine.Create.{network_version_of, manifest_of, traced}
use ffi_demo.Fvm.Machine.Create.Laws.{free_machine}
use ffi_demo.Go.{GoState, register, lookup_externs}
use ffi_demo.Ffi.BigInt.{InU128, split_big_int, reform_big_int, split_big_int-reform}
use ffi_demo.Ffi.Machine.{FvmOpts, Fvm, GoApplyRet, create_fvm, finalize, apply_message}
use ffi_demo.Ffi.Machine.Create.{create_fvm-made, create_fvm-leaks}
use ffi_demo.Ffi.Machine.Apply.{GetsRet, apply_message-GetsRet}
use ffi_demo.Ffi.Machine.Ends.{finalize_once}
use ffi_demo.Examples.Concrete.{
  shared, cids, std, api, known_version, sent, applied, world, machine_world,
}
use ffi_demo.Examples.GoRuns.{go_api, user, one_user}

abbrev show : ℤ → String
show i = "i"

abbrev amount : ℕ
amount = 18446744073709551617

split_big_int-reform_example :
    (InU128 (pos amount)
      × ((hi : ℕ) × (lo : ℕ) × (split_big_int show (pos amount) ≡ ok (hi, lo))
          × (reform_big_int hi lo ≡ pos amount)
          × (pos (join_u64 hi lo) ≡ pos amount)
          × (hi < 2 ^ 64)
          × (lo < 2 ^ 64)))
    ⊎ ((¬ (InU128 (pos amount))) × ((e : Error) × (split_big_int show (pos amount) ≡ err e)))
split_big_int-reform_example = split_big_int-reform show (pos amount)

abbrev Calls : Type 0
Calls = GoState ℕ ℕ

abbrev counted : Calls → Calls
counted s = record s { user = suc s.user }

abbrev go_fvm : FvmApi shared cids Calls
go_fvm = record {
  NetworkConfig = Option ℕ;
  MachineContext = ℕ;
  Machine = ℕ;
  Executor = ℕ;
  network_version_try_from = known_version;
  network_config_new = λ v. none;
  override_actors = λ c config. some c;
  for_epoch = λ epoch root config. root;
  set_base_fee = λ fee context. fee;
  set_circulating_supply = λ supply context. context;
  enable_tracing = λ context. context;
  bundle_car_v6 = 6 ∷ [];
  bundle_car_v7 = 7 ∷ [];
  load_car = λ B car s. (returns (ok (7 ∷ [])), s);
  machine_new = λ context over b x e. (returns (ok context), counted e);
  executor_new = λ m. m;
  message_from_slice = λ bytes. ok sent;
  trace_to_vec = λ t. ok (1 ∷ []);
  execute_message = λ m kind n x e. (returns (ok applied), suc x, counted e);
  flush = λ x e. (returns (ok 5), x, counted e);
}

abbrev put : Unit {0} → ℕ → Calls → Unwind (Result ℕ) × Calls
put code block e = (returns (ok block), counted e)

abbrev put_many : List (Unit {0} × ℕ) → Calls → Unwind (Result (Unit {0})) × Calls
put_many blocks e = (returns (ok tt), counted e)

-- With this state root.
abbrev opts : List ℕ → FvmOpts ℕ ℕ
opts root = record {
  fvm_version = v1;
  externs = user;
  epoch = pos 100;
  base_fee = pos amount;
  base_circ_supply = pos 7;
  network_version = 16;
  state_base = root;
  manifest = 9 ∷ [];
  tracing = true;
}

version_16 : network_version_of std go_fvm 16 ≡ ok v16
unfolding network_version_of
version_16 = refl

manifest_9 : manifest_of std go_fvm (9 ∷ []) ≡ ok (some 9)
unfolding manifest_of
manifest_9 = refl

create_fvm-made_example :
    let (handle, go) = register user one_user in
    let out = create_fvm std go_api go_fvm put put_many show (opts (3 ∷ [])) (world one_user) in
    (lookup_externs handle go ≡ some user)
    × (out.0 ≡ ok (record { executor = free_machine amount; handle = handle }))
    × (out.1.ext ≡ counted go)
unfolding traced
create_fvm-made_example =
    create_fvm-made std go_api go_fvm put put_many show (opts (3 ∷ [])) (world one_user) v16 3 9
      amount 7 amount version_16 refl manifest_9 (omega arith) refl refl (omega arith) (omega arith)
      refl

create_fvm-leaks_example :
    let (handle, go) = register user one_user in
    let out = create_fvm std go_api go_fvm put put_many show (opts []) (world one_user) in
    (out.0 ≡ err (message "invalid state root: not a CID"))
    × (out.1.ext ≡ go)
    × (lookup_externs handle out.1.ext ≡ some user)
create_fvm-leaks_example =
    create_fvm-leaks std go_api go_fvm put put_many show (opts []) (world one_user) v16
      (message "not a CID") (omega arith) (omega arith) version_16 refl

apply_message-GetsRet_example :
    let out = apply_message std api [] 5 (machine_world false) in
    ((r : GoApplyRet) × (out.0 ≡ ok r) × GetsRet api applied amount 2 r)
    × (out.1.ext.go ≡ 1)
    × (out.1.ext.machine.machine ≡ some (record { poisoned = false; inner = 5 }))
apply_message-GetsRet_example =
    apply_message-GetsRet std api [] 5 (machine_world false) sent 4 applied amount 2 refl refl refl
      refl refl (omega arith) (omega arith) (omega arith)

abbrev made : Fvm ℕ
made = record { executor = free_machine 4; handle = 1 }

finalize_once_example :
    let (f', s') = finalize made one_user in
    (f'.executor ≡ none)
    × (lookup_externs 1 s' ≡ none)
    × (lookup_externs 2 s' ≡ lookup_externs 2 one_user)
    × (s'.user ≡ 0)
    × (finalize f' s' ≡ (f', s'))
finalize_once_example = finalize_once made _ one_user 2 refl (λ h. omega arith)
