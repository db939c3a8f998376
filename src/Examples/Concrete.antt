-- ===== src/Examples/Concrete.antt =====
-- Small concrete crates and a Go side that counts the calls that it gets.
use native.Mathlib.Decide.{ℕ_discrete}
use ffi_demo.Base.{
  ℕ, suc, ◌+◌, Bool, true, Option, none, some, List, [], ◌∷◌, map, sum, length, ltb, ◌^◌, replicate,
  ◌==◌, if◌then◌else◌, refl,
}
use ffi_demo.Base.Int.{pos, negsuc}
use ffi_demo.Base.Effect.{owned, static_str, message, Result, ok, err, Unwind, returns, panics}
use ffi_demo.Util.World.{World, not_started}
use ffi_demo.Fvm.Shared.{FvmShared, Message}
use ffi_demo.Fvm.Cgo.{Std, CgoApi}
use ffi_demo.Fvm.Blockstore.{CidApi, Blockstore}
use ffi_demo.Fvm.Engine.{NetworkVersion, v14, v15, v16, other_version, ApplyRet, FvmApi}
use ffi_demo.Fvm.Blockstore.Cgo.{cgo_blockstore}
use ffi_demo.Fvm.Machine.{v1, Host}
use ffi_demo.Fvm.Machine.Create.{CreateArgs}
use ffi_demo.Bls.{BlsApi}
use ffi_demo.Bls.Keys.{IsLawful}

abbrev pub shared : FvmShared
shared = record {
  Address = ℕ;
  TokenAmount = ℕ;
  ExitCode = ℕ;
  new_id = λ n. n;
  default_amount = 0;
  amount_from = λ n. n;
  amount_try_into = λ n. if ltb n (2 ^ 128) then some n else none;
  exit_ok = 0;
  sys_insufficient_funds = 6;
  sys_invalid_receiver = 1;
  sys_assertion_failed = 10;
  is_success = λ n. n == 0;
  exit_value = λ n. n;
}

abbrev pub parse_cid : List ℕ → Result ℕ
parse_cid (k ∷ []) = ok k
parse_cid _ = err (message "not a CID")

-- A CID is a number, its hash, and the hash of a block is the sum of its bytes.
abbrev pub cids : CidApi
cids = record {
  Cid = ℕ;
  Code = Unit;
  Multihash = ℕ;
  cid_dec = ℕ_discrete;
  multihash_dec = ℕ_discrete;
  hash = λ k. k;
  code = λ m. 0;
  code_try_from = λ n. some tt;
  digest = λ c block. sum block;
  to_bytes = λ k. k ∷ [];
  write_bytes = λ k. ok (k ∷ []);
  cid_try_from = parse_cid;
}

abbrev pub std : Std
std = record { show_u64 = λ n. "n"; show_i32 = λ n. "i"; expect_payload = λ s. owned s }

-- Every call succeeds; a consensus fault of type 1 is found.
abbrev pub go : CgoApi ℕ
go = record {
  blockstore_get = λ h k n e. ((pos 0, 9 ∷ []), suc e);
  blockstore_put = λ h k n b m e. (pos 0, suc e);
  blockstore_put_many = λ h l n b e. (pos 0, suc e);
  blockstore_has = λ h k n e. (pos 1, suc e);
  get_chain_randomness = λ h p r b n e. ((pos 0, 4 ∷ []), suc e);
  get_beacon_randomness = λ h p r b n e. ((negsuc 0, []), suc e);
  verify_consensus_fault = λ h a n b m c o e. ((pos 0, 7, pos 8, pos 1, pos 9), suc e);
}

abbrev pub put : Unit {0} → ℕ → ℕ → Unwind (Result ℕ) × ℕ
put code block e = (returns (ok block), suc e)

abbrev pub put_many : List (Unit {0} × ℕ) → ℕ → Unwind (Result (Unit {0})) × ℕ
put_many blocks e = (returns (ok tt), suc e)

abbrev pub store : Blockstore cids ℕ
store = cgo_blockstore std cids go 1 put put_many

abbrev pub known_version : ℕ → Option NetworkVersion
known_version n =
    some
      (if n == 14 then v14 else if n == 15 then v15 else if n == 16 then v16 else other_version n)

abbrev pub sent : Message shared
sent = record {
  version = 0;
  from = 1;
  to = 2;
  sequence = 0;
  value = 5;
  method_num = 0;
  params = [];
  gas_limit = 0;
  gas_fee_cap = 0;
  gas_premium = 0;
}

abbrev pub applied : ApplyRet shared
applied = record {
  msg_receipt = record { exit_code = 0; return_data = 3 ∷ []; gas_used = pos 12 };
  penalty = 18446744073709551617;
  miner_tip = 2;
  exec_trace = [];
  failure_info = none;
}

-- The executor panics on a message of chain length 0.
abbrev pub run_message : ℕ → ℕ → ℕ → Unwind (Result (ApplyRet shared)) × ℕ × ℕ
run_message n x e =
    if n == 0 then (panics (static_str "empty"), x, e) else (returns (ok applied), suc x, suc e)

abbrev pub api : FvmApi shared cids ℕ
api = record {
  NetworkConfig = Option ℕ;
  MachineContext = ℕ;
  Machine = ℕ;
  Executor = ℕ;
  network_version_try_from = known_version;
  network_config_new = λ v. none;
  override_actors = λ c config. some c;
  for_epoch = λ epoch root config. root;
  set_base_fee = λ fee context. fee + context;
  set_circulating_supply = λ supply context. supply + context;
  enable_tracing = λ context. suc context;
  bundle_car_v6 = 6 ∷ [];
  bundle_car_v7 = 7 ∷ [];
  load_car = λ B car s. (returns (ok (7 ∷ [])), s);
  machine_new = λ context over b x e. (returns (ok context), suc e);
  executor_new = λ m. m;
  message_from_slice = λ bytes. ok sent;
  trace_to_vec = λ t. ok (1 ∷ []);
  execute_message = λ m kind n x e. run_message n x e;
  flush = λ x e. (returns (ok 5), x, suc e);
}

abbrev pub world : {E : Type 0} → E → World E
world e = record { logger = not_started; lines = []; closed = []; ext = e }

abbrev pub machine_world : Bool → World (Host ℕ ℕ)
machine_world b =
    world
      (record { go = 0; machine = record { machine = some (record { poisoned = b; inner = 4 }) } })

-- Version `n` with this manifest.
abbrev pub create_args : ℕ → List ℕ → CreateArgs
create_args n manifest = record {
  fvm_version = v1;
  chain_epoch = 100;
  base_fee_hi = 0;
  base_fee_lo = 5;
  base_circ_supply_hi = 1;
  base_circ_supply_lo = 6;
  network_version = n;
  state_root = 3 ∷ [];
  manifest_cid = manifest;
  tracing = true;
  blockstore_id = 1;
  externs_id = 2;
}

abbrev pub padded : ℕ → ℕ → List ℕ
padded n k = k ∷ replicate n 0

abbrev pub parse_padded : ℕ → List ℕ → Option ℕ
parse_padded n [] = none
parse_padded n (k ∷ bytes) = if length bytes == n then some k else none

-- A digest is a sum, and a signature the sum of the digest and the key.
abbrev pub bls : BlsApi
bls = record {
  Signature = ℕ;
  PublicKey = ℕ;
  PrivateKey = ℕ;
  Digest = ℕ;
  Rng = ℕ;
  signature_from_bytes = parse_padded 95;
  signature_to_bytes = padded 95;
  public_key_from_bytes = parse_padded 47;
  public_key_to_bytes = padded 47;
  private_key_from_bytes = parse_padded 31;
  private_key_to_bytes = padded 31;
  hash_sig = sum;
  digest_to_bytes = padded 95;
  from_compressed = parse_padded 95;
  aggregate_sig = λ s. some (sum s);
  verify_sig = λ s digests keys. sum digests + sum keys == s;
  verify_messages_sig = λ s messages keys. sum (map sum messages) + sum keys == s;
  sign = λ k m. sum m + k;
  public_key = λ k. k;
  generate = λ r. r;
  os_rng = 4;
  from_seed = sum;
  identity_signature = 0;
}

pub bls-IsLawful : IsLawful bls
bls-IsLawful = record {
  signature_length = λ s. refl;
  public_key_length = λ k. refl;
  private_key_length = λ k. refl;
  digest_length = λ d. refl;
  signature_decodes = λ s. refl;
  public_key_decodes = λ k. refl;
  private_key_decodes = λ k. refl;
  digest_decodes = λ d. refl;
}
