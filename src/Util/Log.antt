-- ===== src/Util/Log.antt =====
-- rust/src/util/api.rs: the initialisation of the logger under `LOG_INIT`.
use ffi_demo.Base.{ℕ, Option, none, some, if◌then◌else◌}
use ffi_demo.Util.World.{Logger, not_started, stderr, file, World, is_completed, drop_file}

-- `LOG_INIT.call_once`
call_once : Logger → Logger → Logger
call_once not_started fresh = fresh
call_once old fresh = old

module _ {E : Type 0} where
  unfoldable pub init_log : World E → World E
  unfolding call_once
  init_log w = record w { logger = call_once w.logger stderr }

  -- The file goes to the logger, or it is dropped when the function returns.
  unfoldable pub init_log_with_file : ℕ → World E → Option (Unit {0}) × World E
  unfolding call_once
  init_log_with_file fd w =
      if is_completed w.logger
      then (none, drop_file fd w)
      else (some tt, record w { logger = call_once w.logger (file fd) })
