-- ===== src/Archive/Walk/Rule.antt =====
-- archive_tree.rs: what a visitor keeps of its state for each path below the root, a walk keeps.
use mathlib.Core.Option
use omne_runtime.Base.{
  ◌≡◌, ℕ, ◌+◌, Option, some, List, [], ◌∷◌, ◌++◌, Text, Bytes, Result, ok, err, map_err, ok_or,
  codes, decimal, is_some_and,
}
use omne_runtime.Base.Actions.{
  Action, Triple, >>=-Triple, lift->>=-Triple, map_error-Triple, if-Triple, ◌>>=◌, ◌>>◌, lift,
  map_error,
}
use omne_runtime.Archive.{
  sanitize_unix_mode, unsupported_archive_type, reserve_bytes, record_entry, new_budget,
  is_symlink_mode, invalid_archive_path, from_asset_name, sanitize_archive_path,
  ArchiveTreeExtractionLimits, visitor_error, WalkArchiveTreeError, BinaryArchiveFormat,
  ArchiveTreeBudget, tar_gz, tar_xz, zip,
}
use omne_runtime.Archive.Paths.{sanitize_path-IsEntryPath, IsEntryPath}
use omne_runtime.Archive.Walk.{
  hard_link_entry, symlink_entry, file_entry, dir_entry, other_entry, read_zip_symlink_target,
  archive_read_error, EntryType, ZipEntry, TarEntry, walk_zip_tree, walk_zip_entries,
  walk_tar_entries, visit_zip_entry, visit_tar_entry, Archives, walk_tar_tree, walk_archive_tree,
  Step, ArchiveTreeVisitor,
}

module _ {S E : Type 0} (P : S → Type 0) (visitor : ArchiveTreeVisitor S E) where
  abbrev pub Kept : {F A : Type 0} → Action S F A → Type 0
  Kept {F} {A} m = Triple P P (λ (a : A) s. P s) m

  module _ (directories : (path : Bytes) → IsEntryPath path → Kept (visitor.visit_directory path))
      (files : (path : Bytes) (content : Result Text Bytes) (unix_mode : Option ℕ)
        → IsEntryPath path
        → Kept (visitor.visit_regular_file path content unix_mode))
      (symlinks : (path target : Bytes)
        → IsEntryPath path
        → Kept (visitor.visit_symlink path target))
      (hard_links : (path target : Bytes)
        → IsEntryPath path
        → Kept (visitor.visit_hard_link path target)) where
    abbrev Walking : {A : Type 0} → Step S E A → Type 0
    Walking m = Kept m

    checking :
        {A B : Type 0} (r : Result (WalkArchiveTreeError E) A) (f : A → Step S E B)
        → ((a : A) → r ≡ ok a → Walking (f a))
        → Walking (lift r >>= f)
    checking r f h = lift->>=-Triple P P (λ b s. P s) r f (λ s p. p) h

    visiting :
        (m : Action S E (Unit {0})) (budget : ArchiveTreeBudget)
        → Kept m
        → Walking (map_error m visitor_error >> lift (ok budget))
    visiting m budget h =
        >>=-Triple P (λ u s. P s) (λ b s. P s) (map_error m visitor_error) (λ u. lift (ok budget))
          (map_error-Triple P (λ u s. P s) m visitor_error h) (λ u s p. p)

    module _ (archive_format : BinaryArchiveFormat) where
      visit_tar_entry-Kept :
          (budget : ArchiveTreeBudget) (entry : TarEntry) (path : Bytes) (kind : EntryType)
          → IsEntryPath path
          → Walking (visit_tar_entry visitor archive_format budget entry path kind)
      unfolding visit_tar_entry
      visit_tar_entry-Kept budget entry path dir_entry below =
          visiting _ budget (directories path below)
      visit_tar_entry-Kept budget entry path file_entry below =
          checking (reserve_bytes budget path entry.size) _ λ reserved e.
            checking (map_err entry.mode (archive_read_error visitor archive_format "tar_mode")) _
              λ mode f.
                visiting _ reserved
                  (files path entry.content (some (sanitize_unix_mode mode)) below)
      visit_tar_entry-Kept budget entry path symlink_entry below =
          checking _ _ λ target e. visiting _ budget (symlinks path target below)
      visit_tar_entry-Kept budget entry path hard_link_entry below =
          checking _ _ λ target e. visiting _ budget (hard_links path target below)
      visit_tar_entry-Kept budget entry path (other_entry debug) below = λ s p. p

      walk_tar_entries-Kept :
          (budget : ArchiveTreeBudget) (entries : List (Result Text TarEntry))
          → Walking (walk_tar_entries visitor archive_format budget entries)
      unfolding walk_tar_entries sanitize_archive_path
      walk_tar_entries-Kept budget [] = λ s p. p
      walk_tar_entries-Kept budget (err e ∷ entries) = λ s p. p
      walk_tar_entries-Kept budget (ok entry ∷ entries) =
          checking (map_err entry.path (archive_read_error visitor archive_format "entry_path")) _
            λ path e. checking (sanitize_archive_path archive_format path) _ λ sanitized below.
              checking (record_entry budget sanitized) _ λ counted f.
                >>=-Triple P (λ b s. P s) (λ u s. P s)
                  (visit_tar_entry visitor archive_format counted entry sanitized entry.entry_type)
                  (λ visited. walk_tar_entries visitor archive_format visited entries)
                  (visit_tar_entry-Kept counted entry sanitized entry.entry_type
                    (sanitize_path-IsEntryPath _ _ path below))
                  (λ visited. walk_tar_entries-Kept visited entries)

      visit_zip_entry-Kept :
          (budget : ArchiveTreeBudget) (entry : ZipEntry) (path : Bytes)
          → IsEntryPath path
          → Walking (visit_zip_entry visitor archive_format budget entry path)
      unfolding visit_zip_entry
      visit_zip_entry-Kept budget entry path below =
          let link = read_zip_symlink_target visitor archive_format path entry in
          if-Triple P (λ b s. P s) entry.is_dir _ _ (visiting _ budget (directories path below))
            (if-Triple P (λ b s. P s) (is_some_and entry.unix_mode is_symlink_mode) _ _
              (checking (reserve_bytes budget path entry.size) _ λ reserved e.
                checking link _ λ target f. visiting _ reserved (symlinks path target below))
              (checking (reserve_bytes budget path entry.size) _ λ reserved e.
                visiting _ reserved
                  (files path entry.content (Option.map sanitize_unix_mode entry.unix_mode) below)))

      walk_zip_entries-Kept :
          (budget : ArchiveTreeBudget) (index : ℕ) (entries : List (Result Text ZipEntry))
          → Walking (walk_zip_entries visitor archive_format budget index entries)
      unfolding walk_zip_entries sanitize_archive_path
      walk_zip_entries-Kept budget index [] = λ s p. p
      walk_zip_entries-Kept budget index (err e ∷ entries) = λ s p. p
      walk_zip_entries-Kept budget index (ok entry ∷ entries) =
          let unnamed =
            invalid_archive_path archive_format (codes "#" ++ decimal index)
              "path escapes archive root" in
          checking (ok_or entry.enclosed_name unnamed) _ λ name e.
            checking (sanitize_archive_path archive_format name) _ λ enclosed below.
              checking (record_entry budget enclosed) _ λ counted f.
                >>=-Triple P (λ b s. P s) (λ u s. P s)
                  (visit_zip_entry visitor archive_format counted entry enclosed)
                  (λ visited. walk_zip_entries visitor archive_format visited (index + 1) entries)
                  (visit_zip_entry-Kept counted entry enclosed
                    (sanitize_path-IsEntryPath _ _ name below))
                  (λ visited. walk_zip_entries-Kept visited (index + 1) entries)

    walk_tree-Kept :
        (archive_format : BinaryArchiveFormat) (archives : Archives)
        (limits : ArchiveTreeExtractionLimits)
        → Walking (walk_tar_tree archive_format archives.tar limits visitor)
          × Walking (walk_zip_tree archive_format archives.zip limits visitor)
    unfolding walk_tar_tree walk_zip_tree
    walk_tree-Kept archive_format archives limits = (
      checking (map_err archives.tar (archive_read_error visitor archive_format "entries")) _
          λ entries e.
            walk_tar_entries-Kept archive_format (new_budget archive_format limits) entries,
      checking (map_err archives.zip (archive_read_error visitor archive_format "open")) _
          λ entries e.
            walk_zip_entries-Kept archive_format (new_budget archive_format limits) 0 entries,
    )

    chosen-Kept :
        (archive_format : BinaryArchiveFormat) (archives : Archives)
        (limits : ArchiveTreeExtractionLimits)
        → Walking (elim archive_format [
          | tar_gz ↦ walk_tar_tree tar_gz archives.tar limits visitor
          | tar_xz ↦ walk_tar_tree tar_xz archives.tar limits visitor
          | zip ↦ walk_zip_tree zip archives.zip limits visitor
        ])
    chosen-Kept tar_gz archives limits = (walk_tree-Kept tar_gz archives limits).0
    chosen-Kept tar_xz archives limits = (walk_tree-Kept tar_xz archives limits).0
    chosen-Kept zip archives limits = (walk_tree-Kept zip archives limits).1

    pub walk_archive_tree-Kept :
        (asset_name : Text) (archives : Archives) (limits : ArchiveTreeExtractionLimits)
        → Walking (walk_archive_tree asset_name archives limits visitor)
    unfolding walk_archive_tree
    walk_archive_tree-Kept asset_name archives limits =
        checking {B = Unit {0}}
          (ok_or (from_asset_name asset_name) (unsupported_archive_type asset_name)) _
          (λ archive_format e. chosen-Kept archive_format archives limits)
