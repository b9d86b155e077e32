-- ===== src/Fs/Resolve.antt =====
-- crates/omne-fs/src/ops/resolve.rs: the path of a request, resolved in its root, lexically and then
-- by the file system.
pub mod Canonical
use omne_runtime.Base.{
  ◌||◌, Bool, Text, Option, List, Bytes, String, Result, ok_or, not, map_err, ensure, codes, any,
  if◌then◌else◌, some, none, true, false, [], ◌∷◌, ◌++◌, err, ok, ◌>>=◌, ◌>>◌,
}
use omne_runtime.Fs.Context.{reject_secret_path, canonical_root, declared_root, Context, FileSystem}
use omne_runtime.Fs.Error.{invalid_path, outside_root, io_path, FsResult, FsIoError, Error}
use omne_runtime.Fs.Paths.{strip_path_prefix, normalize_path_lexical, normalized_for_boundary}
use omne_runtime.Fs.Policy.{resolve_path_checked}
use omne_runtime.Fs.Redaction.{Patterns}
use omne_runtime.FsPath.{
  path_starts_with, root_dir, parent_dir, parent, cur_dir, push, normal, is_absolute, components,
  Component,
}
use omne_runtime.Text.{is_empty}

-- `Option::or_else`
abbrev first_some : Option Bytes → Option Bytes → Option Bytes
first_some none second = second
first_some (some first) second = some first

-- The empty path is written `.`.
abbrev pub or_dot : Bytes → Bytes
or_dot path = if is_empty path then b'.' ∷ [] else path

unfoldable pub derive_requested_path : Text → Bytes → Bytes → Bytes → FsResult Bytes
derive_requested_path root_id root_path canonical_dir resolved = do
  let normalized_resolved = normalized_for_boundary resolved
  relative_requested ←
      ok_or
        (first_some (strip_path_prefix normalized_resolved (normalized_for_boundary root_path))
          (strip_path_prefix normalized_resolved (normalized_for_boundary canonical_dir)))
        (outside_root root_id normalized_resolved)
  ok (or_dot relative_requested)

-- Where a symbolic link at `current` leads; `none` where its target is missing.
unfoldable pub follow_symlink :
    FileSystem → Text → Bytes → Bytes → Bytes → Bytes → FsResult (Option Bytes)
follow_symlink fs root_id canonical_dir requested_path traversed current = do
  symlink_target ← map_err (fs.read_link current) (λ e. io_path "read_link" traversed e)
  let target =
      if is_absolute symlink_target
      then symlink_target
      else push (elim (parent current) [ none ↦ current | some dir ↦ dir ]) symlink_target
  let resolved_target = normalize_path_lexical target
  ensure (path_starts_with resolved_target canonical_dir) (outside_root root_id requested_path)
  elim (fs.canonicalize resolved_target) [
    | err e ↦ if e.is_not_found then ok none else err (io_path "canonicalize" traversed e)
    | ok canonical ↦
        if path_starts_with canonical canonical_dir
        then ok (some canonical)
        else err (outside_root root_id requested_path)
  ]

-- The loop of `classify_notfound_escape` over the components that are left.
unfoldable pub classify_components :
    FileSystem → Text → Bytes → Bytes → Bytes → Bytes → List Component → FsResult (Unit {0})
classify_components fs root_id canonical_dir requested_path traversed current [] = ok tt
classify_components fs root_id canonical_dir requested_path traversed current (cur_dir ∷ cs) =
    classify_components fs root_id canonical_dir requested_path traversed current cs
classify_components fs root_id canonical_dir requested_path traversed current (parent_dir ∷ cs) =
    err (outside_root root_id requested_path)
classify_components fs root_id canonical_dir requested_path traversed current (root_dir ∷ cs) =
    err (outside_root root_id requested_path)
classify_components fs root_id canonical_dir requested_path traversed current
      (normal segment ∷ cs) =
    let traversed' = push traversed segment in
    let current' = push current segment in
    let rest : Bytes → FsResult (Unit {0}) =
      λ next. classify_components fs root_id canonical_dir requested_path traversed' next cs in
    elim (fs.is_symlink current') [
      | err e ↦ if e.is_not_found then ok tt else err (io_path "symlink_metadata" traversed' e)
      | ok false ↦ rest current'
      | ok true ↦
          follow_symlink fs root_id canonical_dir requested_path traversed' current' >>= λ next.
          elim next [ none ↦ ok tt | some canonical ↦ rest canonical ]
    ]

unfoldable pub classify_notfound_escape : FileSystem → Text → Bytes → Bytes → FsResult (Unit {0})
classify_notfound_escape fs root_id canonical_dir requested_path =
    classify_components fs root_id canonical_dir requested_path [] canonical_dir
      (components requested_path)

pub record ResolvedPath : Type 0 where
  pub resolved : Bytes
  pub requested_path : Bytes
  pub canonical_root : Bytes

-- The error of `derive_requested_path` names the request instead of what it was resolved to.
abbrev name_request : Text → Bytes → Error → Error
name_request root_id path (outside_root id resolved) =
    outside_root root_id (normalize_path_lexical path)
name_request root_id path other = other

abbrev is_outside_root : Error → Bool
is_outside_root (outside_root id path) = true
is_outside_root other = false

-- The error of a path that cannot be canonicalised: an escape from the root is preferred.
unfoldable pub canonicalize_error : Bytes → FsIoError → FsResult (Unit {0}) → Error
canonicalize_error requested_path e (ok tt) = io_path "canonicalize" requested_path e
canonicalize_error requested_path e (err classified) =
    if e.is_not_found || is_outside_root classified
    then classified
    else io_path "canonicalize" requested_path e

module _ (patterns : Patterns) (ctx : Context patterns) where
  unfoldable pub resolve_path_in_root_lexically : Text → Bytes → FsResult ResolvedPath
  resolve_path_in_root_lexically root_id path = do
    resolved ← resolve_path_checked ctx.policy root_id path
    declared ← declared_root patterns ctx root_id
    canonical ← canonical_root patterns ctx root_id
    derived ←
        map_err (derive_requested_path root_id declared canonical resolved)
          (name_request root_id path)
    requested_path ← reject_secret_path patterns ctx derived
    ok (record { resolved = resolved; requested_path = requested_path; canonical_root = canonical })

module _ (patterns : Patterns) (fs : FileSystem) (ctx : Context patterns) where
  -- `Context::canonical_path_in_root`: the canonical path, that path in the root, and the request's
  unfoldable pub canonical_path_in_root : Text → Bytes → FsResult (Bytes × Bytes × Bytes)
  canonical_path_in_root root_id path = do
    r ← resolve_path_in_root_lexically patterns ctx root_id path
    canonical ← map_err (fs.canonicalize r.resolved) (λ e.
        canonicalize_error r.requested_path e
          (classify_notfound_escape fs root_id r.canonical_root r.requested_path))
    ensure (path_starts_with canonical r.canonical_root) (outside_root root_id r.requested_path)
    stripped ←
        ok_or (strip_path_prefix canonical r.canonical_root)
          (invalid_path "failed to derive root-relative path from canonical target")
    relative ← reject_secret_path patterns ctx (or_dot stripped)
    ok (canonical, relative, r.requested_path)
