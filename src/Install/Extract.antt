-- ===== src/Install/Extract.antt =====
-- archive_tree.rs of omne-artifact-install-primitives: `extract_archive_tree_into_root`, a walk of the archive
-- with the installer, and its pending links.
use omne_runtime.Base.{Bool, Option, none, some, [], ◌∷◌, Text, codes, decimal, if◌then◌else◌}
use omne_runtime.Base.Actions.{◌>>=◌, ◌>>◌, map_error}
use omne_runtime.Archive.{
  WalkArchiveTreeError, BinaryArchiveFormat, visitor_error, unsupported_archive_type, archive_read,
  invalid_archive_path, unsupported_archive_entry, extraction_budget_exceeded,
  archive_entry_budget_exceeded, tar_gz, tar_xz, zip, ArchiveTreeExtractionLimits,
}
use omne_runtime.Archive.Walk.{Archives, walk_archive_tree}
use omne_runtime.Install.{System, install, ArtifactInstallError}
use omne_runtime.Install.Collisions.{CaseCollisionTracker}
use omne_runtime.Install.Directories.{Install, open_archive_directory_root}
use omne_runtime.Install.Tree.{
  installer_visitor, visit_hard_link, visit_symlink, visit_regular_file, visit_directory,
  finish_install, Method,
}

-- `BinaryArchiveFormat::label`
abbrev label : BinaryArchiveFormat → Text
unfolding codes
label tar_gz = codes "tar.gz"
label tar_xz = codes "tar.xz"
label zip = codes "zip"

-- `map_archive_walk_error`, with the messages that the errors of a walk display
unfoldable pub map_archive_walk_error :
    WalkArchiveTreeError ArtifactInstallError → ArtifactInstallError
unfolding codes decimal label
map_archive_walk_error (visitor_error e) = e
map_archive_walk_error (unsupported_archive_type asset_name) =
    install "unsupported archive type for `{asset_name}`" (asset_name ∷ [])
map_archive_walk_error (archive_read archive_format stage detail) =
    install "{archive_format} archive read failed during {stage}: {detail}"
      (label archive_format ∷ codes stage ∷ detail ∷ [])
map_archive_walk_error (invalid_archive_path archive_format archive_path detail) =
    install "{archive_format} archive entry `{archive_path}` is invalid: {detail}"
      (label archive_format ∷ archive_path ∷ codes detail ∷ [])
map_archive_walk_error (unsupported_archive_entry archive_format archive_path detail) =
    install "{archive_format} archive entry `{archive_path}` is unsupported: {detail}"
      (label archive_format ∷ archive_path ∷ detail ∷ [])
map_archive_walk_error (extraction_budget_exceeded archive_format archive_path limit_bytes) =
    install
      "{archive_format} archive extracted bytes exceed limit of {limit_bytes} while visiting `{archive_path}`"
      (label archive_format ∷ decimal limit_bytes ∷ archive_path ∷ [])
map_archive_walk_error (archive_entry_budget_exceeded archive_format archive_path limit_entries) =
    install
      "{archive_format} archive entry count exceeds limit of {limit_entries} while visiting `{archive_path}`"
      (label archive_format ∷ decimal limit_entries ∷ archive_path ∷ [])

-- A method on a new installer
abbrev pub on_new_installer : {A : Type 0} → Option CaseCollisionTracker → Method A → Install A
on_new_installer tracker m machine =
    let (result, installer) =
      m (record { machine = machine; case_collision_tracker = tracker; pending_hard_links = [] }) in
    (result, installer.machine)

-- `case_sensitive` is what `filesystem_is_case_sensitive` of omne-fs-primitives answers.
unfoldable pub extract_archive_tree_into_root :
    System
    → (case_sensitive : Bool) → Text
    → Archives
    → ArchiveTreeExtractionLimits
    → Install (Unit {0})
unfolding open_archive_directory_root walk_archive_tree map_archive_walk_error finish_install
    visit_directory visit_regular_file visit_symlink visit_hard_link
extract_archive_tree_into_root system case_sensitive asset_name archives limits = do
  root ← open_archive_directory_root system
  on_new_installer (if case_sensitive then none else some []) (do
    map_error (walk_archive_tree asset_name archives limits (installer_visitor system))
        map_archive_walk_error
    finish_install system)
