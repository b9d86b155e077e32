-- ===== src/Gateway/Authorize.antt =====
-- Which mutation-controlled requests may run: `discover_trusted_opaque_launcher_paths`,
-- `request_uses_opaque_command_launcher` and `authorize_mutation_controlled_request` of
-- crates/omne-execution-gateway/src/gateway.rs.
pub mod Decision
use omne_runtime.Base.{
  Bool, true, false, ◌||◌, not, none, some, String, List, [], ◌∷◌, ◌++◌, Bytes, codes, any, text_eq,
  Result, ok, err, if◌then◌else◌,
}
use omne_runtime.FsPath.{push}
use omne_runtime.Gateway.Error.{ExecError, policy_denied, mutation_declaration_required}
use omne_runtime.Gateway.Types.{ExecRequest}
use omne_runtime.Gateway.Host.{
  FileSystem, Crates, is_spawnable_program_path, explicit_program_paths_match,
}
use omne_runtime.Gateway.Policy.{
  GatewayPolicy, is_explicit_program_path, is_mutating_program_allowlisted,
  is_non_mutating_program_allowlisted,
}
use omne_runtime.Gateway.Launcher.{
  uses_opaque_command_launcher, invocation_uses_opaque_command_launcher,
}
use omne_runtime.Gateway.Environment.{first_startup_sensitive_env_name}
use omne_runtime.Gateway.Programs.{
  BoundProgram, fingerprint_program_contents, standard_program_search_dirs,
}

module _ (fs : FileSystem) where
  -- The body of the inner loop, on the paths found so far.
  unfoldable pub add_trusted_entry : Bytes → List Bytes → Bytes → List Bytes
  add_trusted_entry dir paths file_name =
      let path = push dir file_name in
      if not (uses_opaque_command_launcher file_name)
      then paths
      else if not (is_spawnable_program_path fs path)
      then paths
      else if any (λ known. explicit_program_paths_match fs known path) paths
      then paths
      else paths ++ path ∷ []

  unfoldable pub add_trusted_entries : Bytes → List Bytes → List Bytes → List Bytes
  add_trusted_entries dir paths [] = paths
  add_trusted_entries dir paths (name ∷ names) =
      add_trusted_entries dir (add_trusted_entry dir paths name) names

  -- A directory that cannot be read is passed over.
  unfoldable pub add_trusted_dirs : List Bytes → List Bytes → List Bytes
  add_trusted_dirs paths [] = paths
  add_trusted_dirs paths (dir ∷ dirs) =
      add_trusted_dirs
        (elim (fs.read_dir dir) [ err e ↦ paths | ok names ↦ add_trusted_entries dir paths names ])
        dirs

  unfoldable pub discover_trusted_opaque_launcher_paths : List Bytes
  discover_trusted_opaque_launcher_paths = add_trusted_dirs [] standard_program_search_dirs

-- `trusted` is what `trusted_opaque_launcher_paths` has cached: the discovery on the file system of its
-- first call.
module _ (crates : Crates) (trusted : List Bytes) (fs : FileSystem) where
  unfoldable pub trusted_opaque_launcher_fingerprint_matches : BoundProgram → Bytes → Bool
  trusted_opaque_launcher_fingerprint_matches program trusted_path =
      elim (fingerprint_program_contents fs crates trusted_path) [
        | err e ↦ false
        | ok fingerprint ↦ text_eq fingerprint program.content_fingerprint
      ]

  unfoldable pub bound_program_matches_trusted_opaque_launcher : BoundProgram → Bool
  bound_program_matches_trusted_opaque_launcher program =
      any
        (λ trusted_path.
          explicit_program_paths_match fs program.path trusted_path
          || trusted_opaque_launcher_fingerprint_matches program trusted_path)
        trusted

  unfoldable pub request_uses_opaque_command_launcher : Bytes → List Bytes → BoundProgram → Bool
  request_uses_opaque_command_launcher program args bound_program =
      if invocation_uses_opaque_command_launcher program args
      then true
      else if not (is_explicit_program_path program)
      then false
      else invocation_uses_opaque_command_launcher bound_program.path args
        || bound_program_matches_trusted_opaque_launcher bound_program

  -- The last tests of `authorize_mutation_controlled_request`, on the declaration and the allowlists.
  unfoldable pub authorize_declaration :
      (declared_mutation mutating_allowlisted non_mutating_allowlisted : Bool)
      → Result (String × ExecError) (Unit {0})
  authorize_declaration declared mutating non_mutating =
      if declared
      then (if mutating
          then ok tt
          else err (
            "mutation_requires_allowlisted_program",
            policy_denied (codes "declared mutating command must use an allowlisted program"),
          ))
      else if mutating
      then err (
        "allowlisted_program_requires_declared_mutation",
        policy_denied (codes "allowlisted mutating program must declare mutation"),
      )
      else if non_mutating
      then ok tt
      else err (
        "non_mutating_requires_allowlisted_program",
        policy_denied (codes "declared non-mutating command must use an allowlisted program"),
      )

  unfoldable pub authorize_mutation_controlled_request :
      GatewayPolicy → ExecRequest → BoundProgram → Result (String × ExecError) (Unit {0})
  authorize_mutation_controlled_request policy request bound =
      if request_uses_opaque_command_launcher request.program request.args bound
      then err (
        "opaque_command_forbidden",
        policy_denied (codes "opaque command launchers cannot be authorized by policy"),
      )
      else if not (is_explicit_program_path request.program)
      then err (
        "allowlisted_execution_requires_explicit_program_path",
        policy_denied
            (codes "mutation-controlled requests must use an explicit absolute program path"),
      )
      else if not request.declared_mutation_explicitly
      then err ("mutation_declaration_required", mutation_declaration_required)
      else elim (first_startup_sensitive_env_name request.env) [
        | some name ↦ err (
          "startup_sensitive_env_forbidden",
          policy_denied (
              codes "allowlisted execution forbids startup-sensitive environment variable `"
              ++ (name ++ codes "`")),
        )
        | none ↦
            authorize_declaration request.declared_mutation
              (is_mutating_program_allowlisted fs policy bound.path)
              (is_non_mutating_program_allowlisted fs policy bound.path)
      ]
