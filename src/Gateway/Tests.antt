-- ===== src/Gateway/Tests.antt =====
-- A workspace with one tool, a request that runs it, and the theorems of the gateway at that request.
mod Preparing
mod Executing
mod Redacting
use omne_runtime.Base.{
  ◌≡◌, text_eq, if◌then◌else◌, decimal, codes, Bytes, [], ◌∷◌, refl, true, false, none, some, ok,
  err, inl, inr,
}
use mathlib.Core.List.{map}
use omne_runtime.FsPath.{
  path_starts_with, path_equals, components_start_with, components_eq, path_components, push, pop,
  parent, file_name, as_os_str, components, is_absolute,
}
use omne_runtime.Gateway.AuditLog.{AuditIo}
use omne_runtime.Gateway.Authorize.{
  authorize_mutation_controlled_request, authorize_declaration,
  request_uses_opaque_command_launcher, bound_program_matches_trusted_opaque_launcher,
  trusted_opaque_launcher_fingerprint_matches, discover_trusted_opaque_launcher_paths,
  add_trusted_dirs, add_trusted_entries, add_trusted_entry,
}
use omne_runtime.Gateway.Directories.{
  push_components, revalidate_prepared_request_paths, revalidate_bound_directory, is_dir_now,
  resolve_request_paths, capture_bound_directory, canonicalize_cwd_within_workspace,
  canonicalize_workspace_root, canonicalize_directory, reject_forbidden_directory_ancestors,
  reject_ancestors_from, check_ancestor, absolute_path_lexical, push_component,
  ResolvedRequestPaths,
}
use omne_runtime.Gateway.Environment.{
  first_startup_sensitive_env_name, is_startup_sensitive_env_name, startup_sensitive_names,
  normalized_env_name_ascii,
}
use omne_runtime.Gateway.Error.{exited}
use omne_runtime.Gateway.Execute.{Processes, Machine}
use omne_runtime.Gateway.Host.{
  is_spawnable_program_path, explicit_program_paths_match, is_same_file, Metadata, FileSystem,
  Crates,
}
use omne_runtime.Gateway.Isolation.{ExecutionIsolation}
use omne_runtime.Gateway.Launcher.{
  uses_opaque_command_launcher, invocation_uses_opaque_command_launcher, invocation_on_fuel,
  wrapped_subcommand, subcommand_of, stdbuf_subcommand, setsid_subcommand, nice_subcommand,
  timeout_subcommand, skip_options, passthrough_wrapper_subcommand,
  normalized_opaque_command_launcher_name, matches_versioned_opaque_command_family, opaque_names,
  program_basename_ascii, ascii_program_name, strip_windows_exe_suffix, is_ascii,
}
use omne_runtime.Gateway.Policy.{
  is_non_mutating_program_allowlisted, is_mutating_program_allowlisted, is_program_allowlisted,
  program_path_matches, is_explicit_program_path, has_windows_drive_prefix,
  os_str_has_path_separator, default_for_supported_isolation, default_policy,
}
use omne_runtime.Gateway.Prepare.{
  preflight_event, resolve_request, preflight, evaluate, prepare_request, check_authorization,
  check_isolation, classify_request_path_preflight_error, request_path_reason,
  classify_bind_program_preflight_error, bind_program_reason, deny_preflight, PreparedExecRequest,
  ExecGateway,
}
use omne_runtime.Gateway.Prepare.Safety.{bound_event}
use omne_runtime.Gateway.Programs.{
  revalidate_bound_program, revalidate_linux_bound_program_executable, bind_program_path,
  bind_bare_program_path, bind_explicit_program_path, bind_absolute_program_path,
  bind_linux_program_executable, fingerprint_program_contents,
  resolve_bare_program_path_for_execution, resolve_bare_program_path,
  resolve_bare_program_path_from_standard_locations, resolve_bare_program_path_from_env,
  resolve_bare_program_in_dir, linux_proc_fd_path, standard_program_search_dirs, BoundProgram,
}
use omne_runtime.Gateway.Types.{RequestedIsolationSource, ExecRequest}
use omne_runtime.Text.{
  is_ascii_alphanumeric, trim_start_matches, split, split_once, contains_text, strip_suffix,
  starts_with, strip_prefix, trim, trim_end, trim_start, to_ascii_uppercase, to_ascii_lowercase,
  is_control, is_whitespace, to_ascii_upper, to_ascii_lower, is_ascii_alphabetic, is_ascii_lower,
  is_ascii_upper, is_ascii_digit,
}

abbrev pub workspace : Bytes
workspace = b'/' ∷ b'w' ∷ []

abbrev pub tool : Bytes
tool = b'/' ∷ b'w' ∷ b'/' ∷ b't' ∷ []

abbrev pub directory : Metadata
directory = record { is_file = false; is_dir = true; is_symlink = false; has_execute_bit = true }

abbrev pub executable_file : Metadata
executable_file = record {
  is_file = true;
  is_dir = false;
  is_symlink = false;
  has_execute_bit = true;
}

-- The workspace is a directory; every other path names the tool.
abbrev pub disk : FileSystem
disk = record {
  canonicalize = λ path. ok path;
  metadata = λ path. if text_eq path workspace then ok directory else ok executable_file;
  symlink_metadata = λ path. if text_eq path workspace then ok directory else ok executable_file;
  identity = λ path. if text_eq path workspace then ok 1 else ok 2;
  contents = λ path. ok (7 ∷ []);
  open_file = λ path. ok 3;
  get_fd_flags = λ fd. ok tt;
  set_fd_flags = λ fd. ok tt;
  read_dir = λ path. ok [];
  current_dir = ok workspace;
  path_var = none;
}

abbrev pub crates : Crates
crates = record { sha256 = λ b. b; policy_meta = λ i. []; display = λ e. [] }

abbrev pub log_path : Bytes
log_path = b'/' ∷ b'l' ∷ []

abbrev pub gateway : ExecGateway
gateway = record {
  supported_isolation = ExecutionIsolation.none;
  policy = record {
    allow_isolation_none = true;
    enforce_allowlisted_program_for_mutation = true;
    mutating_program_allowlist = tool ∷ [];
    non_mutating_program_allowlist = [];
    default_isolation = ExecutionIsolation.none;
    audit_log_path = some log_path;
  };
}

abbrev pub sample : ExecRequest
sample = record {
  program = tool;
  args = (b'x' ∷ []) ∷ [];
  env = [];
  cwd = workspace;
  required_isolation = ExecutionIsolation.none;
  requested_isolation_source = RequestedIsolationSource.request;
  workspace_root = workspace;
  declared_mutation = true;
  declared_mutation_explicitly = true;
}

abbrev pub resolved : ResolvedRequestPaths
resolved = record {
  workspace_root = record { path = workspace; identity = 1 };
  cwd = record { path = workspace; identity = 1 };
}

abbrev pub bound : BoundProgram
bound = record { path = tool; identity = 2; content_fingerprint = 7 ∷ []; executable = 3 }

abbrev pub prepared : PreparedExecRequest
prepared = record {
  event = bound_event crates gateway sample resolved bound;
  required_isolation = ExecutionIsolation.none;
  bound_program = bound;
  resolved_paths = resolved;
}

pub prepared_ok : prepare_request crates gateway [] disk sample ≡ ok prepared
unfolding codes file_name push path_starts_with bound_program_matches_trusted_opaque_launcher
    request_uses_opaque_command_launcher authorize_declaration authorize_mutation_controlled_request
    push_component absolute_path_lexical check_ancestor reject_ancestors_from
    reject_forbidden_directory_ancestors canonicalize_directory canonicalize_workspace_root
    canonicalize_cwd_within_workspace capture_bound_directory resolve_request_paths
    first_startup_sensitive_env_name is_same_file is_spawnable_program_path is_ascii
    strip_windows_exe_suffix ascii_program_name program_basename_ascii opaque_names
    matches_versioned_opaque_command_family normalized_opaque_command_launcher_name subcommand_of
    wrapped_subcommand invocation_on_fuel invocation_uses_opaque_command_launcher
    is_explicit_program_path program_path_matches is_program_allowlisted
    is_mutating_program_allowlisted check_isolation check_authorization prepare_request
    linux_proc_fd_path fingerprint_program_contents bind_linux_program_executable
    bind_absolute_program_path bind_explicit_program_path bind_program_path to_ascii_lowercase
    strip_suffix contains_text push_components uses_opaque_command_launcher
prepared_ok = refl

abbrev pub processes : Processes
processes = record {
  spawn_process = λ command. ok 5;
  wait_process = λ child. ok (exited 0);
  try_wait_process = λ child. ok (some (exited 0));
}

-- An operating system that lets the audit log be written.
abbrev pub audit_io : AuditIo
audit_io = record {
  now_unix_ms = 9;
  open_appendable = λ path attempt. ok tt;
  serialize = λ entry. ok [];
  lock_exclusive = ok tt;
  write_line = ok tt;
  unlock = ok tt;
}

abbrev pub idle : Machine
idle = record { spawned = []; log = [] }
