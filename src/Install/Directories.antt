-- ===== src/Install/Directories.antt =====
-- archive_tree.rs of omne-artifact-install-primitives: `try_open_archive_directory_chain`. Directories are
-- opened one component at a time, from the root of the extraction.
use omne_runtime.Base.{
  Bool, true, false, Option, none, some, List, [], ◌∷◌, ◌++◌, Bytes, Result, ok, err, ok_or, codes,
  if◌then◌else◌,
}
use omne_runtime.Base.Actions.{Action, ◌>>=◌, lift, map_error, attempt}
use omne_runtime.FsPath.{Component, root_dir, cur_dir, parent_dir, normal, components}
use omne_runtime.Install.{
  special_type, file_type, dir_type, create_directory, symlink_type, read_file_type, perform_call,
  open_component, install, FileType, Dir, ArtifactInstallError, System, Machine, IoError, ErrorKind,
  not_found, invalid_input,
}
use omne_runtime.Text.{to_string_lossy, is_empty}

abbrev pub Install : Type 0 → Type 0
Install = Action Machine ArtifactInstallError

-- `ArtifactInstallError::install(err.to_string())`
abbrev pub from_io : IoError → ArtifactInstallError
from_io error = install "{}" (error.message ∷ [])

abbrev pub is_not_found : ErrorKind → Bool
is_not_found not_found = true
is_not_found _ = false

-- `map_archive_directory_component_error`, by what the metadata of the component are
unfoldable pub mapped_component_error : Bytes → IoError → Result IoError FileType → IoError
unfolding codes to_string_lossy
mapped_component_error component error (ok symlink_type) = record {
  kind = invalid_input;
  message =
      codes
        "archive tree destination must stay within real directories without crossing symlink ancestors";
}
mapped_component_error component error (ok dir_type) = error
mapped_component_error component error (ok file_type) = record {
  kind = invalid_input;
  message =
      codes "archive tree parent component must be a directory: " ++ to_string_lossy component;
}
mapped_component_error component error (ok special_type) = record {
  kind = invalid_input;
  message =
      codes "archive tree parent component must be a directory: " ++ to_string_lossy component;
}
mapped_component_error component error (err e) = error

module _ (system : System) where
  -- The error of a component, which reads its metadata
  abbrev pub component_error : Dir → Bytes → IoError → Install (Option Dir)
  component_error directory component error = do
    answer ← attempt (read_file_type system directory component)
    lift (err (from_io (mapped_component_error component error answer)))

  unfoldable pub open_archive_directory_root : Install Dir
  open_archive_directory_root = map_error (open_component system [] (b'.' ∷ [])) from_io

  abbrev pub opened_or :
      Result IoError Dir → (IoError → Install (Option Dir)) → Install (Option Dir)
  opened_or (ok next) otherwise = lift (ok (some next))
  opened_or (err e) otherwise = otherwise e

  abbrev pub created_or :
      Result IoError (Unit {0})
      → (IoError → Install (Option Dir))
      → Install (Option Dir)
      → Install (Option Dir)
  created_or (ok u) otherwise next = next
  created_or (err e) otherwise next = otherwise e

  -- The component does not exist: it is made and opened.
  unfoldable pub create_child : Dir → Bytes → Install (Option Dir)
  create_child current part = do
    created ← attempt (perform_call system (create_directory current part))
    created_or created (component_error current part) (do
      opened ← attempt (open_component system current part)
      opened_or opened (component_error current part))

  -- The `match` on `open_directory_component`
  unfoldable pub open_child : Dir → Bytes → Bool → Install (Option Dir)
  unfolding create_child
  open_child current part create_missing = do
    opened ← attempt (open_component system current part)
    opened_or opened λ e.
        if is_not_found e.kind
        then (if create_missing then create_child current part else lift (ok none))
        else component_error current part e

  abbrev pub unsafe_parent : Bytes → Bytes → ArtifactInstallError
  unsafe_parent entry_path directory =
      install "unsafe archive parent `{}` for {}"
        (to_string_lossy directory ∷ to_string_lossy entry_path ∷ [])

  abbrev pub and_open : Option Dir → (Dir → Install (Option Dir)) → Install (Option Dir)
  and_open none f = lift (ok none)
  and_open (some directory) f = f directory

  -- The loop over the components
  unfoldable pub open_components :
      ArtifactInstallError → Bool → List Component → Dir → Install (Option Dir)
  unfolding open_child
  open_components refused create_missing [] current = lift (ok (some current))
  open_components refused create_missing (normal part ∷ cs) current = do
    next ← open_child current part create_missing
    and_open next λ directory. open_components refused create_missing cs directory
  open_components refused create_missing (root_dir ∷ cs) current = lift (err refused)
  open_components refused create_missing (cur_dir ∷ cs) current = lift (err refused)
  open_components refused create_missing (parent_dir ∷ cs) current = lift (err refused)

  unfoldable pub try_open_archive_directory_chain : Bytes → Bytes → Bool → Install (Option Dir)
  unfolding open_archive_directory_root open_components to_string_lossy
  try_open_archive_directory_chain entry_path directory create_missing =
      if is_empty directory
      then (do root ← open_archive_directory_root; lift (ok (some root)))
      else (do
        root ← open_archive_directory_root
        open_components (unsafe_parent entry_path directory) create_missing (components directory)
            root)

  unfoldable pub ensure_archive_directory_chain : Bytes → Bytes → Bool → Install Dir
  unfolding try_open_archive_directory_chain to_string_lossy
  ensure_archive_directory_chain entry_path directory create_missing = do
    opened ← try_open_archive_directory_chain entry_path directory create_missing
    lift (
        ok_or opened (
          install "archive parent `{}` does not exist for {}"
            (to_string_lossy directory ∷ to_string_lossy entry_path ∷ [])))
