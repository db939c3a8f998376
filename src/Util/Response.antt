-- ===== src/Util/Response.antt =====
-- rust/src/util/types.rs: `FCPResponseStatus`, `Result<T>` (here `Response`, since `Result` is the
-- standard library's) with its constructors and conversions, and `as_path_buf`.
use ffi_demo.Base.{ℕ, String, List, []}
use ffi_demo.Base.Effect.{display, Result, ok, err}

pub data FcpResponseStatus : Type 0 where
  no_error unclassified_error caller_error receiver_error : FcpResponseStatus

-- The discriminants of the `repr(i32)`.
abbrev pub status_code_i32 : FcpResponseStatus → ℕ
status_code_i32 no_error = 0
status_code_i32 unclassified_error = 1
status_code_i32 caller_error = 2
status_code_i32 receiver_error = 3

-- The trait `Default`.
pub record Default {ℓ} (A : Type ℓ) : Type ℓ where
  pub default : A

instance abbrev pub unit_default : Default (Unit {0})
unit_default = record { default = tt }

instance abbrev pub list_default : {A : Type 0} → Default (List A)
list_default = record { default = [] }

-- The bytes of `error_msg` are the UTF-8 of the text that is kept here.
pub record Response {ℓ} (T : Type ℓ) : Type ℓ where
  pub status_code : FcpResponseStatus
  pub error_msg : String
  pub value : T

module _ {ℓ} {T : Type ℓ} where
  -- `Result::ok`
  unfoldable pub ok_response : T → Response T
  ok_response value = record { status_code = no_error; error_msg = ""; value = value }

  -- `From<T> for Result<T>`
  unfoldable pub response_of_value : T → Response T
  response_of_value value = record { status_code = no_error; error_msg = ""; value = value }

  unfoldable pub err_with_default : String → T → Response T
  err_with_default error value = record {
    status_code = unclassified_error;
    error_msg = error;
    value = value;
  }

  -- `zeroed` is `MaybeUninit::zeroed().assume_init()`, the value whose bytes are all zero.
  unfoldable pub err_no_default : T → String → Response T
  err_no_default zeroed error = record {
    status_code = unclassified_error;
    error_msg = error;
    value = zeroed;
  }

module _ {ℓ} {T : Type ℓ} ⦃d : Default T⦄ where
  -- `Result::err`
  unfoldable pub err_response : String → Response T
  err_response error = record {
    status_code = unclassified_error;
    error_msg = error;
    value = d.default;
  }

  -- `Default for Result<T>`
  unfoldable pub default_response : Response T
  default_response = record { status_code = no_error; error_msg = ""; value = d.default }

  -- `From<std::result::Result<T, E>> for Result<T>`
  unfoldable pub response_of_result : Result T → Response T
  unfolding ok_response err_response
  response_of_result (ok value) = ok_response value
  response_of_result (err e) = err_response (display e)

-- `PathBuf`, as the bytes of the path.
abbrev pub PathBuf : Type 0
PathBuf = List ℕ

-- The Linux version: every byte string is a path.
unfoldable pub as_path_buf : List ℕ → Result PathBuf
as_path_buf bytes = ok bytes
