-- ===== src/Util/Api.antt =====
-- rust/src/util/api.rs: the exported functions of the module.
pub mod Laws
use ffi_demo.Base.{ℕ, String, Option, none, some, List, map}
use ffi_demo.Base.Effect.{message, Unwind, returns, panics, Exec, pure, raise, ◌>>=◌}
use ffi_demo.Util.World.{World}
use ffi_demo.Util.Log.{init_log_with_file}
use ffi_demo.Util.Response.{Response, list_default, unit_default}
use ffi_demo.Util.CatchPanic.{catch_panic_response, catch_panic_response_no_log}

abbrev pub active_logger : String
active_logger =
    "There is already an active logger. `init_log_fd()` needs to be called before any other FFI function is called."

-- `if init_log_with_file(file).is_none() { return Err(..) }`
unless_active : {E : Type 0} → Option (Unit {0}) → Exec (World E) (Unit {0})
unless_active none = raise (message active_logger)
unless_active (some tt) = pure tt

unfoldable pub init_log_fd : {E : Type 0} → ℕ → World E → Response (Unit {0}) × World E
unfolding catch_panic_response_no_log init_log_with_file unless_active
init_log_fd log_fd =
    catch_panic_response_no_log
      λ w. let (done, w') = init_log_with_file log_fd w in unless_active done w'

-- `all` and `name` are `rust_gpu_tools::Device::all` and `Device::name`.
module _ {E Device : Type 0} (all : World E → Unwind (List Device) × World E)
    (name : Device → String) where
  devices : Unwind (List Device) → Exec (World E) (List String)
  devices (returns ds) w = pure (map name ds) w
  devices (panics p) w = (panics p, w)

  unfoldable pub get_gpu_devices : World E → Response (List String) × World E
  unfolding catch_panic_response devices
  get_gpu_devices =
      catch_panic_response "get_gpu_devices" λ w. let (ds, w') = all w in devices ds w'
