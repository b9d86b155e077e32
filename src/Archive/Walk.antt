-- ===== src/Archive/Walk.antt =====
-- crates/omne-archive-primitives/src/archive_tree.rs: `walk_archive_tree`.
pub mod Limits
pub mod Entries
pub mod Bounds
pub mod Rule
use mathlib.Core.Option
use omne_runtime.Base.{
  String, ℕ, ◌+◌, ltb, Bool, Option, none, some, List, [], ◌∷◌, ◌++◌, Text, Bytes, Result, ok, err,
  map_err, ok_or, codes, decimal, is_some_and, length, take, if◌then◌else◌,
}
use omne_runtime.Base.Actions.{Action, ◌>>=◌, ◌>>◌, lift, map_error}
use omne_runtime.Archive.{
  tar_gz, tar_xz, zip, sanitize_unix_mode, is_symlink_mode, visitor_error, invalid_archive_path,
  unsupported_archive_type, record_entry, new_budget, archive_read, ArchiveTreeBudget,
  unsupported_archive_entry, sanitize_archive_path, reserve_bytes, max_zip_symlink_target_bytes,
  ArchiveTreeExtractionLimits, from_asset_name, WalkArchiveTreeError, BinaryArchiveFormat,
}
use omne_runtime.Text.{to_string_lossy}

-- `ArchiveTreeVisitor`, on a state. A reader is what reading it to the end gives.
pub record ArchiveTreeVisitor (S E : Type 0) : Type 0 where
  pub visit_directory : Bytes → Action S E (Unit {0})
  pub visit_regular_file : Bytes → Result Text Bytes → Option ℕ → Action S E (Unit {0})
  pub visit_symlink : Bytes → Bytes → Action S E (Unit {0})
  pub visit_hard_link : Bytes → Bytes → Action S E (Unit {0})

-- `tar::EntryType`; another one with what `{:?}` prints of it
pub data EntryType : Type 0 where
  dir_entry file_entry symlink_entry hard_link_entry : EntryType
  other_entry : Text → EntryType

-- `tar::Entry`; `mode` is that of its header.
pub record TarEntry : Type 0 where
  pub path : Result Text Bytes
  pub entry_type : EntryType
  pub size : ℕ
  pub mode : Result Text ℕ
  pub link_name : Result Text (Option Bytes)
  pub content : Result Text Bytes

-- `zip::read::ZipFile`
pub record ZipEntry : Type 0 where
  pub enclosed_name : Option Bytes
  pub is_dir : Bool
  pub unix_mode : Option ℕ
  pub size : ℕ
  pub content : Result Text Bytes

-- What the crates read: the entries, or that they cannot be listed, and for each that it cannot be read.
abbrev pub Listing : Type 0 → Type 0
Listing Entry = Result Text (List (Result Text Entry))

-- The archives that the bytes of a reader are, by the format that they are read in.
pub record Archives : Type 0 where
  pub tar : Listing TarEntry
  pub zip : Listing ZipEntry

abbrev pub Step : Type 0 → Type 0 → Type 0 → Type 0
Step S E A = Action S (WalkArchiveTreeError E) A

module _ {S E : Type 0} where
  module _ (visitor : ArchiveTreeVisitor S E) (archive_format : BinaryArchiveFormat) where
    abbrev pub archive_read_error : String → Text → WalkArchiveTreeError E
    archive_read_error stage detail = archive_read archive_format stage detail

    abbrev unsupported_entry : Bytes → Text → WalkArchiveTreeError E
    unsupported_entry path detail =
        unsupported_archive_entry archive_format (to_string_lossy path) detail

    -- The target of a link, by the stage that reads it
    unfoldable tar_link_target :
        TarEntry → Bytes → String → String → Result (WalkArchiveTreeError E) Bytes
    unfolding codes
    tar_link_target entry sanitized stage missing =
        elim (map_err entry.link_name (archive_read_error stage)) [
          | ok link_name ↦ ok_or link_name (unsupported_entry sanitized (codes missing))
          | err e ↦ err e
        ]

    -- The entry is counted, and its path is `sanitized`.
    unfoldable pub visit_tar_entry :
        ArchiveTreeBudget → TarEntry → Bytes → EntryType → Step S E ArchiveTreeBudget
    unfolding reserve_bytes tar_link_target codes
    visit_tar_entry budget entry sanitized dir_entry = do
      map_error (visitor.visit_directory sanitized) visitor_error
      lift (ok budget)
    visit_tar_entry budget entry sanitized file_entry = do
      reserved ← lift (reserve_bytes budget sanitized entry.size)
      mode ← lift (map_err entry.mode (archive_read_error "tar_mode"))
      map_error
          (visitor.visit_regular_file sanitized entry.content (some (sanitize_unix_mode mode)))
          visitor_error
      lift (ok reserved)
    visit_tar_entry budget entry sanitized symlink_entry = do
      link_target ← lift (tar_link_target entry sanitized "symlink_target" "missing symlink target")
      map_error (visitor.visit_symlink sanitized link_target) visitor_error
      lift (ok budget)
    visit_tar_entry budget entry sanitized hard_link_entry = do
      link_target ←
          lift (tar_link_target entry sanitized "hard_link_target" "missing hard link target")
      map_error (visitor.visit_hard_link sanitized link_target) visitor_error
      lift (ok budget)
    visit_tar_entry budget entry sanitized (other_entry debug) =
        lift (err (unsupported_entry sanitized (codes "entry type `" ++ debug ++ codes "`")))

    unfoldable pub walk_tar_entries :
        ArchiveTreeBudget → List (Result Text TarEntry) → Step S E (Unit {0})
    unfolding sanitize_archive_path record_entry visit_tar_entry
    walk_tar_entries budget [] = lift (ok tt)
    walk_tar_entries budget (next ∷ entries) = do
      entry ← lift (map_err next (archive_read_error "read_entry"))
      path ← lift (map_err entry.path (archive_read_error "entry_path"))
      sanitized ← lift (sanitize_archive_path archive_format path)
      counted ← lift (record_entry budget sanitized)
      visited ← visit_tar_entry counted entry sanitized entry.entry_type
      walk_tar_entries visited entries

    -- The bytes read are one more than allowed at most.
    unfoldable pub read_zip_symlink_target :
        Bytes → ZipEntry → Result (WalkArchiveTreeError E) Bytes
    unfolding codes decimal
    read_zip_symlink_target archive_path entry =
        elim (map_err entry.content (archive_read_error "zip_symlink_target")) [
          | err e ↦ err e
          | ok content ↦
              let target = take (max_zip_symlink_target_bytes + 1) content in
              if ltb max_zip_symlink_target_bytes (length target)
              then err (
                  unsupported_entry archive_path (
                    codes "zip symlink target exceeds limit of "
                    ++ decimal max_zip_symlink_target_bytes
                    ++ codes " bytes"))
              else ok target
        ]

    unfoldable pub visit_zip_entry :
        ArchiveTreeBudget → ZipEntry → Bytes → Step S E ArchiveTreeBudget
    unfolding reserve_bytes read_zip_symlink_target
    visit_zip_entry budget entry enclosed =
        if entry.is_dir
        then (do map_error (visitor.visit_directory enclosed) visitor_error; lift (ok budget))
        else if is_some_and entry.unix_mode is_symlink_mode
        then (do
          reserved ← lift (reserve_bytes budget enclosed entry.size)
          link_target ← lift (read_zip_symlink_target enclosed entry)
          map_error (visitor.visit_symlink enclosed link_target) visitor_error
          lift (ok reserved))
        else (do
          reserved ← lift (reserve_bytes budget enclosed entry.size)
          map_error
              (visitor.visit_regular_file enclosed entry.content
                (Option.map sanitize_unix_mode entry.unix_mode))
              visitor_error
          lift (ok reserved))

    unfoldable pub walk_zip_entries :
        ArchiveTreeBudget → ℕ → List (Result Text ZipEntry) → Step S E (Unit {0})
    unfolding sanitize_archive_path record_entry visit_zip_entry codes decimal
    walk_zip_entries budget index [] = lift (ok tt)
    walk_zip_entries budget index (next ∷ entries) = do
      entry ← lift (map_err next (archive_read_error "read_entry"))
      name ← lift (
          ok_or entry.enclosed_name (
            invalid_archive_path archive_format (codes "#" ++ decimal index)
              "path escapes archive root"))
      enclosed ← lift (sanitize_archive_path archive_format name)
      counted ← lift (record_entry budget enclosed)
      visited ← visit_zip_entry counted entry enclosed
      walk_zip_entries visited (index + 1) entries

  unfoldable pub walk_tar_tree :
      BinaryArchiveFormat
      → Listing TarEntry
      → ArchiveTreeExtractionLimits
      → ArchiveTreeVisitor S E
      → Step S E (Unit {0})
  unfolding walk_tar_entries
  walk_tar_tree archive_format archive limits visitor = do
    entries ← lift (map_err archive (archive_read_error visitor archive_format "entries"))
    walk_tar_entries visitor archive_format (new_budget archive_format limits) entries

  unfoldable pub walk_zip_tree :
      BinaryArchiveFormat
      → Listing ZipEntry
      → ArchiveTreeExtractionLimits
      → ArchiveTreeVisitor S E
      → Step S E (Unit {0})
  unfolding walk_zip_entries
  walk_zip_tree archive_format archive limits visitor = do
    entries ← lift (map_err archive (archive_read_error visitor archive_format "open"))
    walk_zip_entries visitor archive_format (new_budget archive_format limits) 0 entries

  unfoldable pub walk_archive_tree :
      Text → Archives → ArchiveTreeExtractionLimits → ArchiveTreeVisitor S E → Step S E (Unit {0})
  unfolding walk_tar_tree walk_zip_tree
  walk_archive_tree asset_name archives limits visitor = do
    archive_format ← lift (ok_or (from_asset_name asset_name) (unsupported_archive_type asset_name))
    elim archive_format [
      | tar_gz ↦ walk_tar_tree tar_gz archives.tar limits visitor
      | tar_xz ↦ walk_tar_tree tar_xz archives.tar limits visitor
      | zip ↦ walk_zip_tree zip archives.zip limits visitor
    ]
