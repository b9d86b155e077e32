-- ===== src/Gateway/Combine.antt =====
-- Joining the outcome of a run with the outcome of its audit write, and the reasons of failures after
-- the preflight: `combine_result_with_audit_write` to `post_preflight_denial_reason` of
-- crates/omne-execution-gateway/src/gateway.rs.
use omne_runtime.Base.{Bool, true, false, some, String, ok, err, if◌then◌else◌}
use text.Mathlib.Text.{◌==◌}
use omne_runtime.Gateway.Error.{
  ExitStatus, ExecError, ExecResult, program_path_invalid, cwd_outside_workspace,
  path_identity_unavailable, request_path_changed, sandbox, audit_log_unavailable,
  audit_log_write_failed, audit_log_write_failed_after_execution_success,
  audit_log_write_failed_after_execution_error, spawn,
}
use omne_runtime.Gateway.Types.{ExecEvent, deny}
use omne_runtime.Gateway.Host.{Crates}
use omne_runtime.Gateway.Prepare.{is_directory_kind}

module _ (crates : Crates) where
  unfoldable pub combine_result_with_audit_write {ℓ} :
      {A : Type ℓ} → ExecResult A → ExecResult (Unit {0}) → ExecResult A
  combine_result_with_audit_write (ok a) (err e) = err e
  combine_result_with_audit_write (err result_err) (err (audit_log_write_failed path detail)) =
      err (audit_log_write_failed_after_execution_error path detail (crates.display result_err))
  combine_result_with_audit_write (err result_err) (err e) = err e
  combine_result_with_audit_write result (ok u) = result

  unfoldable pub combine_exit_status_with_audit_write :
      ExecResult ExitStatus → ExecResult (Unit {0}) → ExecResult ExitStatus
  combine_exit_status_with_audit_write (ok status) (err (audit_log_write_failed path detail)) =
      err (audit_log_write_failed_after_execution_success path detail status)
  combine_exit_status_with_audit_write result audit_result =
      combine_result_with_audit_write result audit_result

unfoldable pub is_audit_error : ExecError → Bool
is_audit_error (audit_log_unavailable path detail) = true
is_audit_error (audit_log_write_failed path detail) = true
is_audit_error (audit_log_write_failed_after_execution_success path detail status) = true
is_audit_error (audit_log_write_failed_after_execution_error path detail error) = true
is_audit_error _ = false

unfoldable pub audit_error_already_reported {ℓ} : {A : Type ℓ} → ExecResult A → Bool
audit_error_already_reported (ok a) = false
audit_error_already_reported (err e) = is_audit_error e

unfoldable pub post_preflight_denial_reason : ExecError → String
post_preflight_denial_reason (path_identity_unavailable kind path) =
    if kind == "program"
    then "program_path_invalid"
    else if is_directory_kind kind
    then "path_identity_unavailable"
    else "post_preflight_execution_failed"
post_preflight_denial_reason (request_path_changed kind path detail) =
    if kind == "program"
    then "program_path_invalid"
    else if is_directory_kind kind
    then "request_path_changed"
    else "post_preflight_execution_failed"
post_preflight_denial_reason (program_path_invalid path detail) = "program_path_invalid"
post_preflight_denial_reason (cwd_outside_workspace cwd root) = "cwd_outside_workspace"
post_preflight_denial_reason (sandbox message) = "sandbox_apply_failed"
post_preflight_denial_reason (spawn e) = "spawn_failed"
post_preflight_denial_reason _ = "post_preflight_execution_failed"

unfoldable pub event_for_post_preflight_error : ExecEvent → ExecError → ExecEvent
event_for_post_preflight_error event error = record event {
  decision = deny;
  reason = some (post_preflight_denial_reason error);
}
