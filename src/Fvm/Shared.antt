-- ===== src/Fvm/Shared.antt =====
-- What rust/src/fvm uses of the crates `fvm_shared` and `fvm`: their types and the functions on them
-- are parameters. Records and enumerations stand here with the parts that the source names.
use ffi_demo.Base.{ℕ, Bool, Option, List}
use ffi_demo.Base.Int.{ℤ}

pub record FvmShared : Type 1 where
  pub Address : Type 0
  pub TokenAmount : Type 0
  pub ExitCode : Type 0
  -- `Address::new_id`
  pub new_id : ℕ → Address
  -- `TokenAmount::default`
  pub default_amount : TokenAmount
  -- `TokenAmount::from` of a `u128`, and `try_into` back
  pub amount_from : ℕ → TokenAmount
  pub amount_try_into : TokenAmount → Option ℕ
  -- `ExitCode::OK` and the `SYS_` codes
  pub exit_ok : ExitCode
  pub sys_insufficient_funds : ExitCode
  pub sys_invalid_receiver : ExitCode
  pub sys_assertion_failed : ExitCode
  pub is_success : ExitCode → Bool
  -- `ExitCode::value`
  pub exit_value : ExitCode → ℕ

-- `fvm_shared::error::ErrorNumber`: the match in `build_lotus_trace` names every variant.
pub data ErrorNumber : Type 0 where
  insufficient_funds not_found illegal_argument illegal_operation limit_exceeded : ErrorNumber
  assertion_failed invalid_handle illegal_cid illegal_codec serialization forbidden : ErrorNumber

module _ (S : FvmShared) where
  open S use {Address, TokenAmount, ExitCode}

  -- `fvm_shared::message::Message`
  pub record Message : Type 0 where
    pub version : ℕ
    pub from : Address
    pub to : Address
    pub sequence : ℕ
    pub value : TokenAmount
    pub method_num : ℕ
    pub params : List ℕ
    pub gas_limit : ℕ
    pub gas_fee_cap : TokenAmount
    pub gas_premium : TokenAmount

  -- `fvm_shared::receipt::Receipt`
  pub record Receipt : Type 0 where
    pub exit_code : ExitCode
    pub return_data : List ℕ
    pub gas_used : ℤ

  -- `fvm::trace::SendParams`
  pub record SendParams : Type 0 where
    pub from : ℕ
    pub to : Address
    pub value : TokenAmount
    pub method : ℕ
    pub params : List ℕ

  -- The payload of `ExecutionEvent::Return`: `Ok(InvocationResult::Return)`,
  -- `Ok(InvocationResult::Failure)` and `Err` of a system call's error number.
  pub data ReturnResult : Type 0 where
    ok_return : List ℕ → ReturnResult
    ok_failure : ExitCode → ReturnResult
    syscall_err : ErrorNumber → ReturnResult

  -- `fvm::trace::ExecutionEvent`; `other_event` is whatever else the two `_` arms may meet.
  pub data ExecutionEvent : Type 0 where
    call : SendParams → ExecutionEvent
    return : ReturnResult → ExecutionEvent
    other_event : ExecutionEvent
