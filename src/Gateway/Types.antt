-- ===== src/Gateway/Types.antt =====
-- crates/omne-execution-gateway/src/types.rs and the event of audit.rs: what a caller asks for, and
-- what the gateway reports of it. An `OsString` and a `PathBuf` are their bytes.
use omne_runtime.Base.{Bool, true, false, Option, none, some, String, List, [], Text, Bytes}
use omne_runtime.Gateway.Isolation.{ExecutionIsolation}

pub data RequestedIsolationSource : Type 0 where
  request policy_default : RequestedIsolationSource

pub record ExecRequest : Type 0 where
  pub program : Bytes
  pub args : List Bytes
  pub env : List (Bytes × Bytes)
  pub cwd : Bytes
  pub required_isolation : ExecutionIsolation
  pub requested_isolation_source : RequestedIsolationSource
  pub workspace_root : Bytes
  pub declared_mutation : Bool
  pub declared_mutation_explicitly : Bool

-- `ExecRequest::new`
unfoldable pub new_request : Bytes → List Bytes → Bytes → ExecutionIsolation → Bytes → ExecRequest
new_request program args cwd required_isolation workspace_root = record {
  program = program;
  args = args;
  env = [];
  cwd = cwd;
  required_isolation = required_isolation;
  requested_isolation_source = request;
  workspace_root = workspace_root;
  declared_mutation = false;
  declared_mutation_explicitly = false;
}

-- `ExecRequest::with_policy_default_isolation`
unfoldable pub with_policy_default_isolation :
    Bytes → List Bytes → Bytes → ExecutionIsolation → Bytes → ExecRequest
with_policy_default_isolation program args cwd policy_default_isolation workspace_root = record {
  program = program;
  args = args;
  env = [];
  cwd = cwd;
  required_isolation = policy_default_isolation;
  requested_isolation_source = policy_default;
  workspace_root = workspace_root;
  declared_mutation = false;
  declared_mutation_explicitly = false;
}

unfoldable pub set_required_isolation : ExecutionIsolation → ExecRequest → ExecRequest
set_required_isolation isolation r = record r {
  required_isolation = isolation;
  requested_isolation_source = request;
}

unfoldable pub set_policy_default_isolation : ExecutionIsolation → ExecRequest → ExecRequest
set_policy_default_isolation isolation r = record r {
  required_isolation = isolation;
  requested_isolation_source = policy_default;
}

unfoldable pub set_declared_mutation : Bool → ExecRequest → ExecRequest
set_declared_mutation declared r = record r {
  declared_mutation = declared;
  declared_mutation_explicitly = true;
}

unfoldable pub with_env : List (Bytes × Bytes) → ExecRequest → ExecRequest
with_env env r = record r { env = env }

abbrev input_isolation : RequestedIsolationSource → ExecutionIsolation → Option ExecutionIsolation
input_isolation request isolation = some isolation
input_isolation policy_default isolation = none

unfoldable pub input_required_isolation : ExecRequest → Option ExecutionIsolation
input_required_isolation r = input_isolation r.requested_isolation_source r.required_isolation

pub data ExecDecision : Type 0 where
  run deny : ExecDecision

pub data ExecStdioMode : Type 0 where
  null piped : ExecStdioMode

pub data SandboxRuntimeMechanism : Type 0 where
  landlock : SandboxRuntimeMechanism

pub data SandboxRuntimeOutcome : Type 0 where
  fully_enforced partially_enforced not_enforced error : SandboxRuntimeOutcome

pub record SandboxRuntimeObservation : Type 0 where
  pub mechanism : SandboxRuntimeMechanism
  pub outcome : SandboxRuntimeOutcome
  pub detail : Option Text

pub record ExecEvent : Type 0 where
  pub decision : ExecDecision
  pub requested_isolation : ExecutionIsolation
  -- The fragment of the `policy-meta` crate, as its serialised text.
  pub requested_policy_meta : Text
  pub supported_isolation : ExecutionIsolation
  pub program : Bytes
  pub args : List Bytes
  pub env : List (Bytes × Bytes)
  pub cwd : Bytes
  pub workspace_root : Bytes
  pub declared_mutation : Bool
  pub stdin_mode : ExecStdioMode
  pub stdout_mode : ExecStdioMode
  pub stderr_mode : ExecStdioMode
  pub reason : Option String
  pub sandbox_runtime : Option SandboxRuntimeObservation

pub record RequestResolution : Type 0 where
  pub program : Bytes
  pub args : List Bytes
  pub env : List (Bytes × Bytes)
  pub cwd : Bytes
  pub workspace_root : Bytes
  pub declared_mutation : Bool
  pub input_required_isolation : Option ExecutionIsolation
  pub requested_isolation : ExecutionIsolation
  pub requested_isolation_source : RequestedIsolationSource
  pub requested_policy_meta : Text
  pub policy_default_isolation : ExecutionIsolation
