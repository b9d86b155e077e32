-- ===== src/Gateway/Policy.antt =====
-- crates/omne-execution-gateway/src/policy.rs: the policy and its allowlists. An allowlist item is a
-- `String` that is only used as a path: its bytes.
use omne_runtime.Base.{
  ℕ, Bool, true, false, ◌&&◌, ◌||◌, Option, none, List, [], ◌∷◌, Bytes, ◌==◌, any, not,
  if◌then◌else◌,
}
use omne_runtime.Text.{is_ascii_alphabetic}
use omne_runtime.FsPath.{is_absolute, path_equals}
use omne_runtime.Gateway.Isolation.{ExecutionIsolation}
use omne_runtime.Gateway.Host.{FileSystem, is_same_file}

pub record GatewayPolicy : Type 0 where
  pub allow_isolation_none : Bool
  pub enforce_allowlisted_program_for_mutation : Bool
  pub mutating_program_allowlist : List Bytes
  pub non_mutating_program_allowlist : List Bytes
  pub default_isolation : ExecutionIsolation
  pub audit_log_path : Option Bytes

-- `GatewayPolicy::default`
unfoldable pub default_policy : GatewayPolicy
default_policy = record {
  allow_isolation_none = true;
  enforce_allowlisted_program_for_mutation = true;
  mutating_program_allowlist = [];
  non_mutating_program_allowlist = [];
  default_isolation = ExecutionIsolation.none;
  audit_log_path = none;
}

abbrev host_default_isolation : ExecutionIsolation → ExecutionIsolation
host_default_isolation ExecutionIsolation.none = ExecutionIsolation.none
host_default_isolation ExecutionIsolation.best_effort = ExecutionIsolation.best_effort
host_default_isolation ExecutionIsolation.strict = ExecutionIsolation.best_effort

abbrev is_none : ExecutionIsolation → Bool
is_none ExecutionIsolation.none = true
is_none _ = false

-- `GatewayPolicy::default_for_supported_isolation`
unfoldable pub default_for_supported_isolation : ExecutionIsolation → GatewayPolicy
default_for_supported_isolation supported =
    let default_isolation = host_default_isolation supported in
    record default_policy {
      allow_isolation_none = is_none default_isolation;
      default_isolation = default_isolation;
    }

abbrev is_separator : ℕ → Bool
is_separator byte = byte == b'/' || byte == 0x5C

-- `os_str_has_path_separator` on Unix: a slash or a backslash.
unfoldable pub os_str_has_path_separator : Bytes → Bool
os_str_has_path_separator = any is_separator

-- `windows_drive_prefix_marker(..).is_some()` on Unix: `C:` with no separator behind it.
unfoldable pub has_windows_drive_prefix : Bytes → Bool
has_windows_drive_prefix [] = false
has_windows_drive_prefix (drive ∷ []) = false
has_windows_drive_prefix (drive ∷ colon ∷ []) = is_ascii_alphabetic drive && colon == b':'
has_windows_drive_prefix (drive ∷ colon ∷ third ∷ rest) =
    is_ascii_alphabetic drive && colon == b':' && not (is_separator third)

-- `is_explicit_program_path`, which gateway.rs has a copy of.
unfoldable pub is_explicit_program_path : Bytes → Bool
is_explicit_program_path program =
    is_absolute program || os_str_has_path_separator program || has_windows_drive_prefix program

module _ (fs : FileSystem) where
  -- `program_path_matches` outside Windows.
  unfoldable pub program_path_matches : Bytes → Bytes → Bool
  program_path_matches expected actual =
      is_same_file fs expected actual || path_equals expected actual

  -- `is_program_allowlisted_os`
  unfoldable pub is_program_allowlisted : List Bytes → Bytes → Bool
  is_program_allowlisted allowlist program =
      if not (is_explicit_program_path program)
      then false
      else any (λ item. is_absolute item && program_path_matches item program) allowlist

  unfoldable pub is_mutating_program_allowlisted : GatewayPolicy → Bytes → Bool
  is_mutating_program_allowlisted policy program =
      is_program_allowlisted policy.mutating_program_allowlist program

  unfoldable pub is_non_mutating_program_allowlisted : GatewayPolicy → Bytes → Bool
  is_non_mutating_program_allowlisted policy program =
      is_program_allowlisted policy.non_mutating_program_allowlist program
