-- ===== src/Gateway/Directories/Containment.antt =====
-- The bound directories: the working directory lies in the workspace, no ancestor that was walked is
-- a link, and a revalidation that passes found the same directories.
use omne_runtime.Base.{
  refl, not, inl, false, inr, err, arith, [], all, Result-cases, ◌∷◌, true, ok, ◌≡◌, String, List,
  Bool, Bytes,
}
use omne_runtime.FsPath.{
  parent_dir, cur_dir, root_dir, normal, pop, components, as_os_str, push, path_starts_with,
  path_components, is_absolute, Component,
}
use omne_runtime.FsPath.Laws.{path_equals_iff}
use omne_runtime.Gateway.Directories.{
  capture_bound_directory, canonicalize_cwd_within_workspace, is_dir_now,
  canonicalize_workspace_root, resolve_request_paths, reject_forbidden_directory_ancestors,
  is_absolute, check_ancestor, Component, revalidate_bound_directory, reject_ancestors_from,
  canonicalize_directory, absolute_path_lexical, ResolvedRequestPaths, BoundDirectory,
}
use omne_runtime.Gateway.Host.{FileSystem}

-- The paths that the ancestor check looks at: one for each named component, from the root on.
unfoldable pub visited_ancestors : Bytes → List Component → List Bytes
visited_ancestors current [] = []
visited_ancestors current (root_dir ∷ cs) = visited_ancestors (push current (as_os_str root_dir)) cs
visited_ancestors current (cur_dir ∷ cs) = visited_ancestors current cs
visited_ancestors current (parent_dir ∷ cs) = visited_ancestors (pop current) cs
visited_ancestors current (normal segment ∷ cs) =
    push current segment ∷ visited_ancestors (push current segment) cs

module _ (fs : FileSystem) where
  abbrev pub is_plain : Bytes → Bool
  is_plain path = elim (fs.symlink_metadata path) [ err e ↦ false | ok m ↦ not m.is_symlink ]

  reject_ancestors_from-all :
      (current : Bytes) (cs : List Component)
      → reject_ancestors_from fs current cs ≡ ok tt
      → all is_plain (visited_ancestors current cs) ≡ true
  unfolding reject_ancestors_from visited_ancestors check_ancestor
  reject_ancestors_from-all current [] h = refl
  reject_ancestors_from-all current (root_dir ∷ cs) h =
      reject_ancestors_from-all (push current (as_os_str root_dir)) cs h
  reject_ancestors_from-all current (cur_dir ∷ cs) h = reject_ancestors_from-all current cs h
  reject_ancestors_from-all current (parent_dir ∷ cs) h =
      reject_ancestors_from-all (pop current) cs h
  reject_ancestors_from-all current (normal segment ∷ cs) h =
      ground (arith, reject_ancestors_from-all (push current segment) cs)

  -- What a directory is known to be after `canonicalize_directory`.
  pub record IsCanonicalDirectory (path canonical : Bytes) : Type 0 where
    pub absolute : Bytes
    pub lexical : absolute_path_lexical fs path ≡ ok absolute
    pub plain_ancestors : all is_plain (visited_ancestors [] (components absolute)) ≡ true
    pub canonicalized : fs.canonicalize absolute ≡ ok canonical
    pub directory : is_dir_now fs canonical ≡ true

  pub canonicalize_directory-IsCanonicalDirectory :
      (path canonical : Bytes)
      → canonicalize_directory fs path ≡ ok canonical
      → IsCanonicalDirectory path canonical
  unfolding canonicalize_directory reject_forbidden_directory_ancestors is_dir_now
  canonicalize_directory-IsCanonicalDirectory path canonical h =
      elim (Result-cases (absolute_path_lexical fs path)) [
        | inr (e, q) ↦ cc q
        | inl (absolute, q) ↦
            let plain = reject_ancestors_from-all [] (components absolute) in
            record {
              absolute = absolute;
              lexical = q;
              plain_ancestors = ground (arith, plain);
              canonicalized = ground arith;
              directory = ground arith;
            }
      ]

  -- The two directories of a request, bound: both are directories reached by no link, and the working
  -- directory is the workspace or lies below it, component by component.
  pub record IsContained (cwd workspace_root : Bytes) (paths : ResolvedRequestPaths) : Type 0 where
    pub root_absolute : is_absolute workspace_root ≡ true
    pub cwd_absolute : is_absolute cwd ≡ true
    pub root_directory : IsCanonicalDirectory workspace_root paths.workspace_root.path
    pub cwd_directory : IsCanonicalDirectory cwd paths.cwd.path
    pub root_identity : fs.identity paths.workspace_root.path ≡ ok paths.workspace_root.identity
    pub cwd_identity : fs.identity paths.cwd.path ≡ ok paths.cwd.identity
    pub inside : path_starts_with paths.cwd.path paths.workspace_root.path ≡ true

  module _ (cwd workspace_root : Bytes) (paths : ResolvedRequestPaths) where
    -- When the directories of a request are resolved, both are given by absolute paths and are
    -- directories whose ancestors are no links, both are bound to their identities, and the
    -- components of the working directory start with those of the workspace root.
    pub resolve_request_paths-IsContained :
        resolve_request_paths fs cwd workspace_root ≡ ok paths
        → IsContained cwd workspace_root paths
    unfolding resolve_request_paths canonicalize_workspace_root canonicalize_cwd_within_workspace
        capture_bound_directory
    resolve_request_paths-IsContained h = record {
      root_absolute = ground arith;
      cwd_absolute = ground arith;
      root_directory = canonicalize_directory-IsCanonicalDirectory _ _ (ground arith);
      cwd_directory = canonicalize_directory-IsCanonicalDirectory _ _ (ground arith);
      root_identity = ground arith;
      cwd_identity = ground arith;
      inside = ground arith;
    }

  -- A bound directory that still is what was bound.
  pub record IsSameDirectory (bound : BoundDirectory) : Type 0 where
    pub current : Bytes
    pub canonicalized : fs.canonicalize bound.path ≡ ok current
    pub same_path : path_components current ≡ path_components bound.path
    pub directory : is_dir_now fs current ≡ true
    pub same_identity : fs.identity current ≡ ok bound.identity

  -- When the revalidation of a bound directory succeeds, its path still canonicalises to a
  -- directory with the same components and the bound identity.
  pub revalidate_bound_directory-IsSameDirectory :
      (bound : BoundDirectory) (kind : String)
      → revalidate_bound_directory fs bound kind ≡ ok tt
      → IsSameDirectory bound
  unfolding revalidate_bound_directory
  revalidate_bound_directory-IsSameDirectory bound kind h =
      elim (Result-cases (fs.canonicalize bound.path)) [
        | inr (e, q) ↦ cc q
        | inl (current, q) ↦ record {
          current = current;
          canonicalized = q;
          same_path = ground (arith, path_equals_iff current bound.path);
          directory = ground arith;
          same_identity = ground arith;
        }
      ]
