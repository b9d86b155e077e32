-- ===== src/Install/Links.antt =====
-- archive_tree.rs of omne-artifact-install-primitives: symbolic links and hard links of an archive.
use omne_runtime.Base.{
  Bool, true, false, ◌||◌, not, Option, none, some, List, [], ◌∷◌, Bytes, Result, ok, err, ok_or,
  map_err, ◌==◌, if◌then◌else◌,
}
use omne_runtime.Base.Actions.{◌>>=◌, ◌>>◌, lift, map_error, attempt}
use omne_runtime.Archive.{sanitize_path}
use omne_runtime.FsPath.{
  Component, root_dir, cur_dir, parent_dir, normal, components, push, parent, is_absolute,
}
use omne_runtime.Install.{
  open_regular, install, Dir, System, IoError, Identity, ErrorKind, ArtifactInstallError,
  invalid_input,
}
use omne_runtime.Install.Directories.{
  open_archive_directory_root, try_open_archive_directory_chain, is_not_found, from_io,
  ensure_archive_directory_chain, Install,
}
use omne_runtime.Install.Leaves.{
  rename_archive_leaf, pending_leaf, create_archive_staged_symlink, create_archive_staged_hard_link,
  ensure_replaceable_archive_output_leaf, archive_leaf_name,
}
use omne_runtime.Text.{to_string_lossy}

abbrev pub unsafe_target : Bytes → Bytes → ArtifactInstallError
unsafe_target link_target entry_path =
    install "unsafe archive link target `{}` for {}"
      (to_string_lossy link_target ∷ to_string_lossy entry_path ∷ [])

abbrev absolute_target : Bytes → ArtifactInstallError
absolute_target entry_path =
    install "absolute archive link target is not allowed for {}" (to_string_lossy entry_path ∷ [])

-- The loop of `validate_archive_link_target`
unfoldable pub resolve_link :
    ArtifactInstallError → Bytes → List Component → Result ArtifactInstallError Bytes
unfolding push parent
resolve_link refused resolved [] = ok resolved
resolve_link refused resolved (normal part ∷ cs) = resolve_link refused (push resolved part) cs
resolve_link refused resolved (cur_dir ∷ cs) = resolve_link refused resolved cs
resolve_link refused resolved (parent_dir ∷ cs) = elim (parent resolved) [
  | none ↦ err refused
  | some above ↦ resolve_link refused above cs
]
resolve_link refused resolved (root_dir ∷ cs) = err refused

unfoldable pub validate_archive_link_target :
    Bytes → Bytes → Bytes → Result ArtifactInstallError Bytes
unfolding is_absolute resolve_link to_string_lossy
validate_archive_link_target entry_path parent_path link_target =
    if is_absolute link_target
    then err (absolute_target entry_path)
    else resolve_link (unsafe_target link_target entry_path) parent_path (components link_target)

-- `sanitize_archive_path` of this crate
unfoldable pub sanitize_tree_path : Bytes → Result ArtifactInstallError Bytes
unfolding to_string_lossy
sanitize_tree_path path =
    sanitize_path (install "unsafe tar archive entry path `{}`" (to_string_lossy path ∷ []))
      (install "empty tar archive entry path" []) path

unfoldable pub validate_archive_hard_link_target : Bytes → Bytes → Result ArtifactInstallError Bytes
unfolding is_absolute to_string_lossy
validate_archive_hard_link_target entry_path link_target =
    if is_absolute link_target
    then err (absolute_target entry_path)
    else map_err (sanitize_tree_path link_target) (λ e. unsafe_target link_target entry_path)

pub record PendingTarHardLink : Type 0 where
  pub entry_path : Bytes
  pub output_path : Bytes
  pub link_target : Bytes
  pub resolved_target : Bytes

abbrev pub unsafe_hard_link : PendingTarHardLink → ArtifactInstallError
unsafe_hard_link pending =
    install "unsafe hard link target `{}` for {}"
      (to_string_lossy pending.link_target ∷ to_string_lossy pending.entry_path ∷ [])

abbrev pub is_invalid_input : ErrorKind → Bool
is_invalid_input invalid_input = true
is_invalid_input _ = false

-- The test of `validate_staged_hard_link_matches_source`
abbrev pub differs : Identity → Identity → Bool
differs staged source =
    not staged.is_file || not (staged.dev == source.dev) || not (staged.ino == source.ino)

-- The errors of opening the staged leaf
abbrev pub staged_open_error : PendingTarHardLink → IoError → ArtifactInstallError
staged_open_error pending e =
    if is_invalid_input e.kind then unsafe_hard_link pending else from_io e

abbrev pub opened_source :
    PendingTarHardLink
    → Result IoError (Result IoError Identity)
    → Result ArtifactInstallError (Option (Result IoError Identity))
opened_source pending (ok file) = ok (some file)
opened_source pending (err e) =
    if is_not_found e.kind
    then ok none
    else if is_invalid_input e.kind
    then err (unsafe_hard_link pending)
    else err (from_io e)

module _ (system : System) where
  unfoldable pub create_tar_symlink : Bytes → Bytes → Bytes → Install (Unit {0})
  unfolding parent ensure_archive_directory_chain archive_leaf_name
      ensure_replaceable_archive_output_leaf create_archive_staged_symlink pending_leaf
      rename_archive_leaf to_string_lossy validate_archive_link_target
  create_tar_symlink entry_path output_path link_target = do
    parent_path ← lift (
        ok_or (parent output_path) (
          install "cannot determine symlink parent for tar entry {}"
            (to_string_lossy entry_path ∷ [])))
    parent_directory ← ensure_archive_directory_chain system entry_path parent_path true
    resolved ← lift (validate_archive_link_target entry_path parent_path link_target)
    output_leaf ← lift (archive_leaf_name output_path)
    ensure_replaceable_archive_output_leaf system entry_path parent_directory output_leaf
    staged_leaf ← create_archive_staged_symlink system entry_path parent_directory link_target
    pending_leaf system parent_directory staged_leaf
        (rename_archive_leaf system entry_path parent_directory staged_leaf output_leaf)

  unfoldable pub prepare_tar_hard_link : Bytes → Bytes → Bytes → Install PendingTarHardLink
  unfolding parent ensure_archive_directory_chain validate_archive_hard_link_target to_string_lossy
  prepare_tar_hard_link entry_path output_path link_target = do
    parent_path ← lift (
        ok_or (parent output_path) (
          install "cannot determine hard link parent for tar entry {}"
            (to_string_lossy entry_path ∷ [])))
    parent_directory ← ensure_archive_directory_chain system entry_path parent_path true
    resolved_target ← lift (validate_archive_hard_link_target entry_path link_target)
    lift (
        ok (record {
          entry_path = entry_path;
          output_path = output_path;
          link_target = link_target;
          resolved_target = resolved_target;
        }))

  unfoldable pub validate_staged_hard_link_matches_source :
      PendingTarHardLink → Dir → Bytes → Identity → Install (Unit {0})
  unfolding to_string_lossy
  validate_staged_hard_link_matches_source pending output_parent_dir staged_leaf source_identity =
      do
        file ←
            map_error (open_regular system output_parent_dir staged_leaf)
              (staged_open_error pending)
        staged_identity ← lift (map_err file from_io)
        lift (
            if differs staged_identity source_identity
            then err (unsafe_hard_link pending)
            else ok tt)

  -- The directory of the target: that of its parent, or the root
  abbrev pub open_target_parent : PendingTarHardLink → Option Bytes → Install (Option Dir)
  open_target_parent pending (some target_parent) =
      try_open_archive_directory_chain system pending.entry_path target_parent false
  open_target_parent pending none = do
    root ← open_archive_directory_root system
    lift (ok (some root))

  -- The target is a regular file, open as `source_file`.
  unfoldable pub link_to_source :
      PendingTarHardLink → Dir → Dir → Bytes → Result IoError Identity → Install Bool
  unfolding archive_leaf_name ensure_replaceable_archive_output_leaf create_archive_staged_hard_link
      pending_leaf validate_staged_hard_link_matches_source rename_archive_leaf
  link_to_source pending output_parent_dir target_parent_dir target_leaf source_file = do
    source_identity ← lift (map_err source_file from_io)
    output_leaf ← lift (archive_leaf_name pending.output_path)
    ensure_replaceable_archive_output_leaf system pending.entry_path output_parent_dir output_leaf
    staged_leaf ←
        create_archive_staged_hard_link system pending.entry_path target_parent_dir target_leaf
          output_parent_dir
    pending_leaf system output_parent_dir staged_leaf (do
      validate_staged_hard_link_matches_source pending output_parent_dir staged_leaf source_identity
      rename_archive_leaf system pending.entry_path output_parent_dir staged_leaf output_leaf)
    lift (ok true)

  abbrev pub if_there : {A : Type 0} → Option A → (A → Install Bool) → Install Bool
  if_there none f = lift (ok false)
  if_there (some a) f = f a

  -- From the check of the letter case on
  unfoldable pub try_create_tar_hard_link : PendingTarHardLink → Install Bool
  unfolding parent ensure_archive_directory_chain try_open_archive_directory_chain
      open_archive_directory_root archive_leaf_name link_to_source to_string_lossy
  try_create_tar_hard_link pending = do
    parent_path ← lift (
        ok_or (parent pending.output_path) (
          install "cannot determine hard link parent for tar entry {}"
            (to_string_lossy pending.entry_path ∷ [])))
    output_parent_dir ← ensure_archive_directory_chain system pending.entry_path parent_path false
    target_parent_dir ← open_target_parent pending (parent pending.resolved_target)
    if_there target_parent_dir λ directory. do
      target_leaf ← lift (archive_leaf_name pending.resolved_target)
      answer ← attempt (open_regular system directory target_leaf)
      source_file ← lift (opened_source pending answer)
      if_there source_file (link_to_source pending output_parent_dir directory target_leaf)
