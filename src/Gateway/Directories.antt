-- ===== src/Gateway/Directories.antt =====
-- The workspace root and the working directory of a request: `canonicalize_workspace_root` to
-- `is_permitted_platform_root_alias`, `capture_bound_directory` and `revalidate_bound_directory` of
-- crates/omne-execution-gateway/src/gateway.rs, on Linux.
pub mod Containment
use omne_runtime.Base.{
  ℕ, Bool, true, false, ◌&&◌, not, String, List, [], ◌∷◌, ◌++◌, Text, Bytes, codes, ◌==◌, Result,
  ok, err, ◌>>=◌, ◌>>◌, map_err, ensure, if◌then◌else◌,
}
use omne_runtime.Text.{to_string_lossy}
use omne_runtime.FsPath.{
  Component, root_dir, cur_dir, parent_dir, normal, components, as_os_str, is_absolute, push, pop,
  path_starts_with, path_equals,
}
use omne_runtime.Gateway.Error.{
  IoError, ExecError, ExecResult, workspace_root_invalid, cwd_invalid, cwd_outside_workspace,
  path_identity_unavailable, request_path_changed,
}
use omne_runtime.Gateway.Host.{FileSystem}

pub record BoundDirectory : Type 0 where
  pub path : Bytes
  pub identity : ℕ

pub record ResolvedRequestPaths : Type 0 where
  pub workspace_root : BoundDirectory
  pub cwd : BoundDirectory

-- One turn of the loop of `absolute_path_lexical`.
unfoldable pub push_component : Bytes → Component → Bytes
push_component p root_dir = push p (as_os_str root_dir)
push_component p cur_dir = p
push_component p parent_dir = pop p
push_component p (normal segment) = push p segment

unfoldable pub push_components : Bytes → List Component → Bytes
push_components p [] = p
push_components p (c ∷ cs) = push_components (push_component p c) cs

module _ (fs : FileSystem) where
  unfoldable pub absolute_path_lexical : Bytes → Result Text Bytes
  absolute_path_lexical path = do
    start ← if is_absolute path then ok [] else map_err fs.current_dir (λ e. IoError.message e)
    ok (push_components start (components path))

  -- `file_metadata_has_forbidden_link_ancestor`; the exception for macOS does not apply.
  unfoldable pub check_ancestor : Bytes → Result Text (Unit {0})
  check_ancestor current = do
    metadata ← map_err (fs.symlink_metadata current) (λ e. IoError.message e)
    ensure (not metadata.is_symlink) (
        codes "path must not traverse symlink or reparse-point ancestors: "
        ++ to_string_lossy current)

  unfoldable pub reject_ancestors_from : Bytes → List Component → Result Text (Unit {0})
  reject_ancestors_from current [] = ok tt
  reject_ancestors_from current (root_dir ∷ cs) =
      reject_ancestors_from (push current (as_os_str root_dir)) cs
  reject_ancestors_from current (cur_dir ∷ cs) = reject_ancestors_from current cs
  reject_ancestors_from current (parent_dir ∷ cs) = reject_ancestors_from (pop current) cs
  reject_ancestors_from current (normal segment ∷ cs) =
      let rest = reject_ancestors_from (push current segment) cs in
      check_ancestor (push current segment) >> rest

  unfoldable pub reject_forbidden_directory_ancestors : Bytes → Result Text (Unit {0})
  reject_forbidden_directory_ancestors path = reject_ancestors_from [] (components path)

  unfoldable pub canonicalize_directory : Bytes → Result Text Bytes
  canonicalize_directory path = do
    absolute ← absolute_path_lexical path
    reject_forbidden_directory_ancestors absolute
    canonical ← map_err (fs.canonicalize absolute) (λ e. IoError.message e)
    metadata ← map_err (fs.metadata canonical) (λ e. IoError.message e)
    ensure metadata.is_dir (codes "path is not a directory")
    ok canonical

  unfoldable pub canonicalize_workspace_root : Bytes → ExecResult Bytes
  canonicalize_workspace_root path = do
    ensure (is_absolute path) (workspace_root_invalid path)
    map_err (canonicalize_directory path) (λ detail. workspace_root_invalid path)

  unfoldable pub canonicalize_cwd_within_workspace : Bytes → Bytes → ExecResult Bytes
  canonicalize_cwd_within_workspace cwd workspace_root = do
    ensure (is_absolute cwd) (cwd_invalid cwd (codes "cwd must be absolute"))
    canonical ← map_err (canonicalize_directory cwd) (λ detail. cwd_invalid cwd detail)
    ensure (path_starts_with canonical workspace_root)
        (cwd_outside_workspace canonical workspace_root)
    ok canonical

  unfoldable pub capture_bound_directory : Bytes → String → ExecResult BoundDirectory
  capture_bound_directory path kind = do
    identity ← map_err (fs.identity path) (λ e. path_identity_unavailable kind path)
    ok (record { path = path; identity = identity })

  unfoldable pub resolve_request_paths : Bytes → Bytes → ExecResult ResolvedRequestPaths
  resolve_request_paths cwd workspace_root = do
    root_path ← canonicalize_workspace_root workspace_root
    root ← capture_bound_directory root_path "workspace_root"
    cwd_path ← canonicalize_cwd_within_workspace cwd root.path
    bound_cwd ← capture_bound_directory cwd_path "cwd"
    ok (record { workspace_root = root; cwd = bound_cwd })

  -- `fs::metadata(&current).map(|m| m.is_dir()).unwrap_or(false)`
  unfoldable pub is_dir_now : Bytes → Bool
  is_dir_now path = elim (fs.metadata path) [ err e ↦ false | ok m ↦ m.is_dir ]

  unfoldable pub revalidate_bound_directory : BoundDirectory → String → ExecResult (Unit {0})
  revalidate_bound_directory bound kind = do
    current ←
        map_err (fs.canonicalize bound.path)
          (λ e. request_path_changed kind bound.path (codes "path is no longer accessible"))
    ensure (path_equals current bound.path) (
        request_path_changed kind bound.path
          (codes "canonical path changed to " ++ to_string_lossy current))
    ensure (is_dir_now current)
        (request_path_changed kind bound.path (codes "path is no longer a directory"))
    current_identity ←
        map_err (fs.identity current) (λ e. path_identity_unavailable kind bound.path)
    ensure (current_identity == bound.identity)
        (request_path_changed kind bound.path (codes "directory identity changed"))

  unfoldable pub revalidate_prepared_request_paths : ResolvedRequestPaths → ExecResult (Unit {0})
  revalidate_prepared_request_paths paths = do
    revalidate_bound_directory paths.workspace_root "workspace_root"
    revalidate_bound_directory paths.cwd "cwd"
    ensure (path_starts_with paths.cwd.path paths.workspace_root.path)
        (cwd_outside_workspace paths.cwd.path paths.workspace_root.path)
