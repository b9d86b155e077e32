-- ===== src/Gateway/Error.antt =====
-- crates/omne-execution-gateway/src/error.rs, with the values that its errors carry: exit statuses
-- and I/O errors.
use omne_runtime.Base.{
  ℕ, Bool, false, Option, none, some, String, Text, Bytes, Result, ◌==◌, is_some_and,
}
use omne_runtime.Gateway.Isolation.{ExecutionIsolation}

-- `std::process::ExitStatus` on Unix: an exit code, or the signal that ended the process.
pub data ExitStatus : Type 0 where
  exited : ℕ → ExitStatus
  signaled : ℕ → ExitStatus

abbrev pub code : ExitStatus → Option ℕ
code (exited c) = some c
code (signaled s) = none

abbrev pub success : ExitStatus → Bool
success (exited c) = c == 0
success (signaled s) = false

-- `std::io::Error`: whether its kind is `NotFound`, and what `to_string` gives.
pub record IoError : Type 0 where
  pub is_not_found : Bool
  pub message : Text

pub data ExecError : Type 0 where
  isolation_not_supported : (requested supported : ExecutionIsolation) → ExecError
  workspace_root_invalid : (path : Bytes) → ExecError
  relative_program_path : (program : Text) → ExecError
  program_path_invalid : (path : Bytes) (detail : Text) → ExecError
  program_lookup_failed : (program detail : Text) → ExecError
  cwd_outside_workspace : (cwd workspace_root : Bytes) → ExecError
  cwd_invalid : (cwd : Bytes) (detail : Text) → ExecError
  mutation_declaration_required : ExecError
  path_identity_unavailable : (kind : String) (path : Bytes) → ExecError
  request_path_changed : (kind : String) (path : Bytes) (detail : Text) → ExecError
  policy_default_isolation_mismatch : (requested policy_default : ExecutionIsolation) → ExecError
  sandbox : Text → ExecError
  policy_denied : Text → ExecError
  audit_log_unavailable : (path : Bytes) (detail : Text) → ExecError
  audit_log_path_invalid : (path : Bytes) (detail : Text) → ExecError
  audit_log_write_failed : (path : Bytes) (detail : Text) → ExecError
  audit_log_write_failed_after_execution_success :
      (path : Bytes) (detail : Text) (status : ExitStatus) → ExecError
  audit_log_write_failed_after_execution_error :
      (path : Bytes) (detail execution_error : Text) → ExecError
  spawn : IoError → ExecError

abbrev pub ExecResult {ℓ} : Type ℓ → Type ℓ
ExecResult A = Result ExecError A

-- `ExecError::completed_status`
abbrev pub error_completed_status : ExecError → Option ExitStatus
error_completed_status (audit_log_write_failed_after_execution_success path detail status) =
    some status
error_completed_status _ = none

-- `ExecError::command_completed_successfully`
unfoldable pub error_completed_successfully : ExecError → Bool
error_completed_successfully e = is_some_and (error_completed_status e) success
