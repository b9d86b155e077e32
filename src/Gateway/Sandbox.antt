-- ===== src/Gateway/Sandbox.antt =====
-- crates/omne-execution-gateway/src/sandbox: every back end offers no isolation yet and refuses what
-- asks for more. Also the command that a prepared request becomes.
use omne_runtime.Base.{Option, none, List, [], ◌∷◌, Bytes, ok, err, text_eq, if◌then◌else◌}
use omne_runtime.Gateway.Isolation.{ExecutionIsolation}
use omne_runtime.Gateway.Error.{ExecResult, isolation_not_supported}
use omne_runtime.Gateway.Types.{SandboxRuntimeObservation, ExecStdioMode}
use omne_runtime.Gateway.Programs.{linux_proc_fd_path}
use omne_runtime.Gateway.Prepare.{PreparedExecRequest}

unfoldable pub detect_supported_isolation : ExecutionIsolation
detect_supported_isolation = ExecutionIsolation.none

-- What the monitor observes after the spawn.
unfoldable pub apply_sandbox : ExecutionIsolation → ExecResult (Option SandboxRuntimeObservation)
apply_sandbox ExecutionIsolation.none = ok none
apply_sandbox ExecutionIsolation.best_effort =
    err (isolation_not_supported ExecutionIsolation.best_effort ExecutionIsolation.none)
apply_sandbox ExecutionIsolation.strict =
    err (isolation_not_supported ExecutionIsolation.strict ExecutionIsolation.none)

-- `std::process::Command` as the gateway fills it in.
pub record Command : Type 0 where
  pub program : Bytes
  pub arg0 : Bytes
  pub args : List Bytes
  pub env : List (Bytes × Bytes)
  pub current_dir : Bytes
  pub stdin_mode : ExecStdioMode
  pub stdout_mode : ExecStdioMode
  pub stderr_mode : ExecStdioMode

-- `Command::env`: a later value of a name replaces an earlier one.
unfoldable pub set_env : Bytes → Bytes → List (Bytes × Bytes) → List (Bytes × Bytes)
set_env name value [] = (name, value) ∷ []
set_env name value ((n, v) ∷ env) =
    let rest = set_env name value env in
    if text_eq n name then (name, value) ∷ env else (n, v) ∷ rest

unfoldable pub set_envs : List (Bytes × Bytes) → List (Bytes × Bytes) → List (Bytes × Bytes)
set_envs env [] = env
set_envs env ((name, value) ∷ more) = set_envs (set_env name value env) more

-- `configure_request_environment`: only the request's variables.
unfoldable pub configure_request_environment : List (Bytes × Bytes) → List (Bytes × Bytes)
configure_request_environment env = set_envs [] env

-- `build_prepared_spawn_command`, `configure_prepared_stdio` and the first half of
-- `apply_prepared_request`: the bound descriptor is run under the bound path's name.
unfoldable pub build_command :
    PreparedExecRequest → List Bytes → ExecStdioMode → ExecStdioMode → ExecStdioMode → Command
build_command prepared args stdin_mode stdout_mode stderr_mode = record {
  program = linux_proc_fd_path prepared.bound_program.executable;
  arg0 = prepared.bound_program.path;
  args = args;
  env = configure_request_environment prepared.event.env;
  current_dir = prepared.resolved_paths.cwd.path;
  stdin_mode = stdin_mode;
  stdout_mode = stdout_mode;
  stderr_mode = stderr_mode;
}
