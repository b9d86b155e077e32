-- ===== src/Gateway/Prepare.antt =====
-- `prepare_request` of crates/omne-execution-gateway/src/gateway.rs: the checks that every request
-- passes before it may run, in their order, and the event that reports the outcome.
pub mod Safety
pub mod Admission
pub mod Denial
use omne_runtime.Base.{
  Bool, true, false, ◌&&◌, ◌||◌, not, Option, none, some, String, List, Bytes, codes, Result, ok,
  err, ◌>>=◌, ◌>>◌, map_err, if◌then◌else◌,
}
use omne_runtime.FsPath.{is_absolute}
use text.Mathlib.Text.{◌==◌}
use omne_runtime.Gateway.Isolation.{ExecutionIsolation, exceeds, isolation_eq}
use omne_runtime.Gateway.Error.{
  ExecError, isolation_not_supported, workspace_root_invalid, relative_program_path,
  cwd_outside_workspace, cwd_invalid, path_identity_unavailable, request_path_changed,
  policy_default_isolation_mismatch, policy_denied, audit_log_path_invalid,
}
use omne_runtime.Gateway.Types.{
  ExecRequest, RequestedIsolationSource, request, policy_default, ExecEvent, run, deny, null,
  RequestResolution, input_required_isolation,
}
use omne_runtime.Gateway.Host.{FileSystem, Crates}
use omne_runtime.Gateway.Policy.{GatewayPolicy}
use omne_runtime.Gateway.Directories.{ResolvedRequestPaths, resolve_request_paths}
use omne_runtime.Gateway.Programs.{BoundProgram, bind_program_path}
use omne_runtime.Gateway.Authorize.{authorize_mutation_controlled_request}

pub record PreparedExecRequest : Type 0 where
  pub event : ExecEvent
  pub required_isolation : ExecutionIsolation
  pub bound_program : BoundProgram
  pub resolved_paths : ResolvedRequestPaths

pub record PreflightError : Type 0 where
  pub event : ExecEvent
  pub error : ExecError

-- `ExecGateway`; its audit logger is made from the policy's path.
pub record ExecGateway : Type 0 where
  pub supported_isolation : ExecutionIsolation
  pub policy : GatewayPolicy

-- `deny_event` and `deny_preflight`
unfoldable pub deny_preflight : ExecEvent → String → ExecError → PreflightError
deny_preflight event reason error = record {
  event = record event { decision = deny; reason = some reason };
  error = error;
}

unfoldable pub bind_program_reason : ExecError → String
bind_program_reason (relative_program_path program) = "relative_program_path_forbidden"
bind_program_reason _ = "program_path_invalid"

-- `classify_bind_program_preflight_error`
unfoldable pub classify_bind_program_preflight_error : ExecEvent → ExecError → PreflightError
classify_bind_program_preflight_error event error =
    deny_preflight event (bind_program_reason error) error

abbrev pub is_directory_kind : String → Bool
is_directory_kind kind = kind == "cwd" || kind == "workspace_root"

unfoldable pub request_path_reason : ExecError → String
request_path_reason (workspace_root_invalid path) = "workspace_root_invalid"
request_path_reason (cwd_invalid cwd detail) = "cwd_invalid"
request_path_reason (cwd_outside_workspace cwd root) = "cwd_outside_workspace"
request_path_reason (path_identity_unavailable kind path) =
    if is_directory_kind kind then "path_identity_unavailable" else "cwd_outside_workspace"
request_path_reason (request_path_changed kind path detail) =
    if is_directory_kind kind then "request_path_changed" else "cwd_outside_workspace"
request_path_reason _ = "cwd_outside_workspace"

-- `classify_request_path_preflight_error`
unfoldable pub classify_request_path_preflight_error : ExecEvent → ExecError → PreflightError
classify_request_path_preflight_error event error =
    deny_preflight event (request_path_reason error) error

abbrev pub is_policy_default : RequestedIsolationSource → Bool
is_policy_default request = false
is_policy_default policy_default = true

abbrev pub is_isolation_none : ExecutionIsolation → Bool
is_isolation_none ExecutionIsolation.none = true
is_isolation_none _ = false

-- A path that is configured and not absolute.
abbrev pub audit_path_error : Option Bytes → Option Bytes
audit_path_error none = none
audit_path_error (some path) = if is_absolute path then none else some path

module _ (crates : Crates) (gateway : ExecGateway) where
  unfoldable pub preflight_event : ExecRequest → ExecEvent
  preflight_event r = record {
    decision = run;
    requested_isolation = r.required_isolation;
    requested_policy_meta = crates.policy_meta r.required_isolation;
    supported_isolation = gateway.supported_isolation;
    program = r.program;
    args = r.args;
    env = r.env;
    cwd = r.cwd;
    workspace_root = r.workspace_root;
    declared_mutation = r.declared_mutation;
    stdin_mode = null;
    stdout_mode = null;
    stderr_mode = null;
    reason = none;
    sandbox_runtime = none;
  }

  -- The checks of `prepare_request` that look at the request and the policy alone.
  unfoldable pub check_isolation : ExecRequest → Result PreflightError (Unit {0})
  check_isolation r =
      let event = preflight_event r in
      if is_policy_default r.requested_isolation_source
        && not (isolation_eq r.required_isolation gateway.policy.default_isolation)
      then err (
          deny_preflight event "policy_default_isolation_mismatch" (
            policy_default_isolation_mismatch r.required_isolation
              gateway.policy.default_isolation))
      else if is_isolation_none r.required_isolation && not gateway.policy.allow_isolation_none
      then err (
          deny_preflight event "isolation_none_forbidden"
            (policy_denied (codes "isolation none is forbidden by policy")))
      else if exceeds r.required_isolation gateway.supported_isolation
      then err (
          deny_preflight event "isolation_not_supported"
            (isolation_not_supported r.required_isolation gateway.supported_isolation))
      else elim (audit_path_error gateway.policy.audit_log_path) [
        | none ↦ ok tt
        | some path ↦ err (
            deny_preflight event "audit_log_path_invalid"
              (audit_log_path_invalid path (codes "audit_log_path must be absolute")))
      ]

  module _ (trusted : List Bytes) (fs : FileSystem) where
    -- The test that an enforcing policy adds.
    unfoldable pub check_authorization :
        ExecEvent → ExecRequest → BoundProgram → Result PreflightError (Unit {0})
    check_authorization event r bound =
        if gateway.policy.enforce_allowlisted_program_for_mutation
        then map_err
            (authorize_mutation_controlled_request crates trusted fs gateway.policy r bound)
            (λ (reason, error). deny_preflight event reason error)
        else ok tt

    unfoldable pub prepare_request : ExecRequest → Result PreflightError PreparedExecRequest
    prepare_request r = do
      check_isolation r
      resolved_paths ←
          map_err (resolve_request_paths fs r.cwd r.workspace_root)
            (classify_request_path_preflight_error (preflight_event r))
      bound_program ←
          map_err (bind_program_path fs crates r.program)
            (classify_bind_program_preflight_error (preflight_event r))
      let event = record (preflight_event r) {
        cwd = resolved_paths.cwd.path;
        workspace_root = resolved_paths.workspace_root.path;
        program = bound_program.path;
      }
      check_authorization event r bound_program
      ok (record {
        event = event;
        required_isolation = r.required_isolation;
        bound_program = bound_program;
        resolved_paths = resolved_paths;
      })

    unfoldable pub evaluate : ExecRequest → ExecEvent
    evaluate r = elim (prepare_request r) [ ok p ↦ p.event | err e ↦ e.event ]

    unfoldable pub preflight : ExecRequest → Result PreflightError ExecEvent
    preflight r = elim (prepare_request r) [ ok p ↦ ok p.event | err e ↦ err e ]

    -- `RequestResolution::from_event` on the event of `evaluate`.
    unfoldable pub resolve_request : ExecRequest → RequestResolution
    resolve_request r =
        let event = evaluate r in
        record {
          program = event.program;
          args = r.args;
          env = event.env;
          cwd = event.cwd;
          workspace_root = event.workspace_root;
          declared_mutation = r.declared_mutation;
          input_required_isolation = input_required_isolation r;
          requested_isolation = r.required_isolation;
          requested_isolation_source = r.requested_isolation_source;
          requested_policy_meta = crates.policy_meta r.required_isolation;
          policy_default_isolation = gateway.policy.default_isolation;
        }
