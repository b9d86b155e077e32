-- ===== src/Gateway/Programs.antt =====
-- Finding a program and binding its identity and contents: `bind_program_path` to
-- `bind_absolute_program_path`, `revalidate_bound_program`, the Linux descriptor checks, the search of
-- PATH and of the standard directories, and the trusted opaque launchers of
-- crates/omne-execution-gateway/src/gateway.rs, on Linux.
pub mod Binding
use omne_runtime.Base.{
  ℕ, zero, suc, ◌+◌, ◌/◌, ◌%◌, Bool, true, false, ◌&&◌, ◌||◌, not, Option, none, some, List, [],
  ◌∷◌, ◌++◌, Text, Bytes, codes, decimal, ltb, ◌==◌, any, find_map, text_eq, Result, ok, err, ◌>>=◌,
  ◌>>◌, map_err, ok_or, ensure, if◌then◌else◌,
}
use omne_runtime.Text.{to_string_lossy, split}
use omne_runtime.FsPath.{is_absolute, push}
use omne_runtime.Gateway.Error.{
  IoError, ExecError, ExecResult, relative_program_path, program_path_invalid,
  program_lookup_failed, path_identity_unavailable, request_path_changed,
}
use omne_runtime.Gateway.Host.{
  FileSystem, Crates, is_spawnable_program_path, explicit_program_paths_match,
}
use omne_runtime.Gateway.Policy.{is_explicit_program_path}
use omne_runtime.Gateway.Launcher.{uses_opaque_command_launcher}

-- The descriptor `executable` is `LinuxBoundExecutable`'s file.
pub record BoundProgram : Type 0 where
  pub path : Bytes
  pub identity : ℕ
  pub content_fingerprint : Bytes
  pub executable : ℕ

unfoldable pub standard_program_search_dirs : List Bytes
standard_program_search_dirs =
    codes "/usr/local/bin"
    ∷ codes "/usr/bin"
    ∷ codes "/bin"
    ∷ codes "/opt/homebrew/bin"
    ∷ codes "/opt/local/bin"
    ∷ []

-- `linux_proc_fd_path`
unfoldable pub linux_proc_fd_path : ℕ → Bytes
linux_proc_fd_path fd = codes "/proc/self/fd/" ++ decimal fd

module _ (fs : FileSystem) where
  -- `resolve_bare_program_in_dir` on Unix.
  unfoldable pub resolve_bare_program_in_dir : Bytes → Bytes → Option Bytes
  resolve_bare_program_in_dir program dir =
      let candidate = push dir program in
      if is_spawnable_program_path fs candidate then some candidate else none

  unfoldable pub resolve_bare_program_path_from_env : Bytes → Option Bytes
  resolve_bare_program_path_from_env program = elim fs.path_var [
    | none ↦ none
    | some path_var ↦ find_map (resolve_bare_program_in_dir program) (split b':' path_var)
  ]

  unfoldable pub resolve_bare_program_path_from_standard_locations : Bytes → Option Bytes
  resolve_bare_program_path_from_standard_locations program =
      find_map (resolve_bare_program_in_dir program) standard_program_search_dirs

  unfoldable pub resolve_bare_program_path : Bytes → Option Bytes
  resolve_bare_program_path program = elim (resolve_bare_program_path_from_env program) [
    | none ↦ resolve_bare_program_path_from_standard_locations program
    | some path ↦ some path
  ]

  -- `resolve_bare_program_path_for_execution`
  unfoldable pub resolve_bare_program_path_for_execution : Bytes → Option Bytes
  resolve_bare_program_path_for_execution program =
      if is_explicit_program_path program
      then none
      else resolve_bare_program_path_from_standard_locations program

  module _ (crates : Crates) where
    -- `fingerprint_program_contents`: the hash of what the read loop reads.
    unfoldable pub fingerprint_program_contents : Bytes → ExecResult Bytes
    fingerprint_program_contents path = do
      contents ← map_err (fs.contents path) (λ e. program_path_invalid path (IoError.message e))
      ok (crates.sha256 contents)

    -- The opened file must be the file that was hashed.
    unfoldable pub bind_linux_program_executable : Bytes → ℕ → Bytes → ExecResult ℕ
    bind_linux_program_executable path expected_identity expected_fingerprint = do
      fd ← map_err (fs.open_file path) (λ e. program_path_invalid path (IoError.message e))
      identity ←
          map_err (fs.identity (linux_proc_fd_path fd))
            (λ e. path_identity_unavailable "program" path)
      ensure (identity == expected_identity)
          (request_path_changed "program" path (codes "opened file identity changed"))
      fingerprint ← fingerprint_program_contents (linux_proc_fd_path fd)
      ensure (text_eq fingerprint expected_fingerprint)
          (request_path_changed "program" path (codes "opened file contents changed"))
      ok fd

    unfoldable pub bind_absolute_program_path : Bytes → ExecResult BoundProgram
    bind_absolute_program_path requested_path = do
      path ←
          map_err (fs.canonicalize requested_path)
            (λ e. program_path_invalid requested_path (IoError.message e))
      metadata ←
          map_err (fs.metadata path) (λ e. program_path_invalid requested_path (IoError.message e))
      ensure metadata.is_file
          (program_path_invalid requested_path (codes "program path must reference a regular file"))
      ensure (is_spawnable_program_path fs path) (
          program_path_invalid requested_path
            (codes "program path must reference a spawnable executable"))
      identity ← map_err (fs.identity path) (λ e. path_identity_unavailable "program" path)
      fingerprint ← fingerprint_program_contents path
      executable ← bind_linux_program_executable path identity fingerprint
      ok (record {
        path = path;
        identity = identity;
        content_fingerprint = fingerprint;
        executable = executable;
      })

    unfoldable pub bind_explicit_program_path : Bytes → ExecResult BoundProgram
    bind_explicit_program_path program = do
      ensure (is_absolute program) (relative_program_path (to_string_lossy program))
      bind_absolute_program_path program

    unfoldable pub bind_bare_program_path : Bytes → ExecResult BoundProgram
    bind_bare_program_path program = do
      path ← ok_or (resolve_bare_program_path program) (
          program_lookup_failed (to_string_lossy program)
            (codes "program not found in PATH or standard locations"))
      bind_absolute_program_path path

    unfoldable pub bind_program_path : Bytes → ExecResult BoundProgram
    bind_program_path program =
        if is_explicit_program_path program
        then bind_explicit_program_path program
        else bind_bare_program_path program

    -- `revalidate_linux_bound_program_executable`, with `set_linux_fd_inheritable`
    unfoldable pub revalidate_linux_bound_program_executable : BoundProgram → ExecResult (Unit {0})
    revalidate_linux_bound_program_executable program = do
      identity ←
          map_err (fs.identity (linux_proc_fd_path program.executable))
            (λ e. path_identity_unavailable "program" program.path)
      ensure (identity == program.identity)
          (request_path_changed "program" program.path (codes "opened file identity changed"))
      fingerprint ← fingerprint_program_contents (linux_proc_fd_path program.executable)
      ensure (text_eq fingerprint program.content_fingerprint)
          (request_path_changed "program" program.path (codes "opened file contents changed"))
      map_err (fs.get_fd_flags program.executable)
          (λ e. program_path_invalid program.path (IoError.message e))
      map_err (fs.set_fd_flags program.executable)
          (λ e. program_path_invalid program.path (IoError.message e))

    unfoldable pub revalidate_bound_program : BoundProgram → ExecResult (Unit {0})
    revalidate_bound_program program = do
      metadata ←
          map_err (fs.metadata program.path) (λ e.
            request_path_changed "program" program.path (codes "path is no longer accessible"))
      ensure metadata.is_file
          (request_path_changed "program" program.path (codes "path is no longer a regular file"))
      ensure (is_spawnable_program_path fs program.path)
          (request_path_changed "program" program.path (codes "path is no longer executable"))
      identity ←
          map_err (fs.identity program.path) (λ e. path_identity_unavailable "program" program.path)
      ensure (identity == program.identity)
          (request_path_changed "program" program.path (codes "file identity changed"))
      fingerprint ← fingerprint_program_contents program.path
      ensure (text_eq fingerprint program.content_fingerprint)
          (request_path_changed "program" program.path (codes "file contents changed"))
      revalidate_linux_bound_program_executable program
