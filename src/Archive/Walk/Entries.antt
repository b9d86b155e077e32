-- ===== src/Archive/Walk/Entries.antt =====
-- archive_tree.rs: the budget covers each entry before it is handed over.
use mathlib.Core.Option
use omne_runtime.Base.{
  is_some_and, ok_or, decimal, ◌++◌, codes, map_err, some, arith, ◌≤◌, ◌-◌, ◌≡◌, ◌^◌, ◌<◌, ℕ, ◌+◌,
  List, [], ◌∷◌, Text, Bytes, Result, ok, err,
}
use omne_runtime.Base.Actions.{
  if-Triple, map_error-Triple, ◌>>◌, map_error, lift-Triple, lift->>=-Triple, >>=-Triple, ◌>>=◌,
  lift, Triple,
}
use omne_runtime.Archive.{
  is_symlink_mode, invalid_archive_path, sanitize_unix_mode, visitor_error, record_entry,
  reserve_bytes, sanitize_archive_path, WalkArchiveTreeError, ArchiveTreeBudget,
  BinaryArchiveFormat, ArchiveTreeExtractionLimits,
}
use omne_runtime.Archive.Paths.{sanitize_path-IsEntryPath, IsEntryPath}
use omne_runtime.Archive.Walk.{
  read_zip_symlink_target, ZipEntry, walk_zip_entries, visit_zip_entry, archive_read_error,
  hard_link_entry, symlink_entry, file_entry, dir_entry, other_entry, EntryType, TarEntry,
  walk_tar_entries, visit_tar_entry, Step,
}
use omne_runtime.Archive.Walk.Limits.{
  IsSizedZip, hard_link, symlink, visit-IsCovered, regular_file, reserve_bytes-IsCovered,
  record_entry-IsCovered, note, directory, recorder, IsSizedTar, IsCovered-IsWithin, AllSized,
  visit_size, content_size, visit_path, IsWithin, IsCovered, Visit,
}

module _ {E : Type 0} (limits : ArchiveTreeExtractionLimits)
    (answer : List Visit → Result E (Unit {0})) (archive_format : BinaryArchiveFormat) where
  abbrev Counted : ℕ → ArchiveTreeBudget → List Visit → Type 0
  Counted z budget = IsCovered limits 1 z budget

  abbrev Visited : ArchiveTreeBudget → List Visit → Type 0
  Visited budget = IsCovered limits 0 0 budget

  abbrev Walks :
      {A : Type 0}
      → (List Visit → Type 0)
      → (A → List Visit → Type 0)
      → Step (List Visit) E A
      → Type 0
  Walks = Triple (IsWithin limits)

  visiting :
      (z : ℕ) (budget : ArchiveTreeBudget) (v : Visit)
      → IsEntryPath (visit_path v)
      → visit_size v ≤ z
      → Walks
          (Counted z budget)
          Visited
          (map_error (note answer v) visitor_error >> lift (ok budget))
  visiting z budget v path size =
      >>=-Triple (IsWithin limits) (λ u. Visited budget) Visited
        (map_error (note answer v) visitor_error) (λ u. lift (ok budget))
        (map_error-Triple (IsWithin limits) (λ u. Visited budget) (note answer v) visitor_error
          (visit-IsCovered limits answer z budget v path size))
        (λ u visits c. c)

  -- A check that may end the walk
  checking :
      {A B : Type 0} (k z : ℕ) (budget : ArchiveTreeBudget) (Good : B → List Visit → Type 0)
      (r : Result (WalkArchiveTreeError E) A) (f : A → Step (List Visit) E B)
      → ((a : A) → r ≡ ok a → Walks (IsCovered limits k z budget) Good (f a))
      → Walks (IsCovered limits k z budget) Good (lift r >>= f)
  checking k z budget Good r f h =
      lift->>=-Triple (IsWithin limits) (IsCovered limits k z budget) Good r f
        (λ visits c. IsCovered-IsWithin limits k z budget visits c) h

  counting :
      {B : Type 0} (budget : ArchiveTreeBudget) (path : Bytes) (Good : B → List Visit → Type 0)
      (f : ArchiveTreeBudget → Step (List Visit) E B)
      → limits.max_entries < 2 ^ 64 - 1
      → ((counted : ArchiveTreeBudget) → Walks (Counted 0 counted) Good (f counted))
      → Walks (Visited budget) Good (lift (record_entry budget path) >>= f)
  counting budget path Good f small h =
      >>=-Triple (IsWithin limits) (Counted 0) Good (lift (record_entry budget path)) f
        (lift-Triple (IsWithin limits) (Counted 0) (record_entry budget path)
          (λ visits c. IsCovered-IsWithin limits 0 0 budget visits c)
          (λ counted e visits c.
            record_entry-IsCovered limits budget path counted visits small e c))
        h

  reserving :
      {B : Type 0} (budget : ArchiveTreeBudget) (path : Bytes) (size : ℕ)
      (Good : B → List Visit → Type 0) (f : ArchiveTreeBudget → Step (List Visit) E B)
      → ((reserved : ArchiveTreeBudget) → Walks (Counted size reserved) Good (f reserved))
      → Walks (Counted 0 budget) Good (lift (reserve_bytes budget path size) >>= f)
  reserving budget path size Good f h =
      >>=-Triple (IsWithin limits) (Counted size) Good (lift (reserve_bytes budget path size)) f
        (lift-Triple (IsWithin limits) (Counted size) (reserve_bytes budget path size)
          (λ visits c. IsCovered-IsWithin limits 1 0 budget visits c)
          (λ reserved e visits c.
            reserve_bytes-IsCovered limits budget path size reserved visits e c))
        h

  visit_tar_entry-Visited :
      (budget : ArchiveTreeBudget) (entry : TarEntry) (path : Bytes) (kind : EntryType)
      → IsEntryPath path
      → content_size entry.content ≤ entry.size
      → Walks
          (Counted 0 budget)
          Visited
          (visit_tar_entry (recorder answer) archive_format budget entry path kind)
  unfolding visit_tar_entry
  visit_tar_entry-Visited budget entry path dir_entry below sized =
      visiting 0 budget (directory path) below (omega arith)
  visit_tar_entry-Visited budget entry path file_entry below sized =
      reserving budget path entry.size Visited _ λ reserved.
        checking 1 entry.size reserved Visited _ _ λ mode e.
          visiting entry.size reserved
            (regular_file path entry.content (some (sanitize_unix_mode mode))) below sized
  visit_tar_entry-Visited budget entry path symlink_entry below sized =
      checking 1 0 budget Visited _ _
        λ target e. visiting 0 budget (symlink path target) below (omega arith)
  visit_tar_entry-Visited budget entry path hard_link_entry below sized =
      checking 1 0 budget Visited _ _
        λ target e. visiting 0 budget (hard_link path target) below (omega arith)
  visit_tar_entry-Visited budget entry path (other_entry debug) below sized =
      λ visits c. IsCovered-IsWithin limits 1 0 budget visits c

  pub walk_tar_entries-IsWithin :
      (budget : ArchiveTreeBudget) (entries : List (Result Text TarEntry))
      → limits.max_entries < 2 ^ 64 - 1
      → AllSized IsSizedTar entries
      → Walks
          (Visited budget)
          (λ u. IsWithin limits)
          (walk_tar_entries (recorder answer) archive_format budget entries)
  unfolding walk_tar_entries sanitize_archive_path
  walk_tar_entries-IsWithin budget [] small sized =
      λ visits c. IsCovered-IsWithin limits 0 0 budget visits c
  walk_tar_entries-IsWithin budget (err e ∷ entries) small sized =
      λ visits c. IsCovered-IsWithin limits 0 0 budget visits c
  walk_tar_entries-IsWithin budget (ok entry ∷ entries) small (one, rest) =
      let Good = λ (u : Unit {0}). IsWithin limits in
      let read =
        map_err entry.path (archive_read_error (recorder answer) archive_format "entry_path") in
      checking 0 0 budget Good read _ λ path e.
        checking 0 0 budget Good (sanitize_archive_path archive_format path) _ λ sanitized below.
          counting budget sanitized Good _ small λ counted.
            >>=-Triple (IsWithin limits) Visited Good
              (visit_tar_entry (recorder answer) archive_format counted entry sanitized
                entry.entry_type)
              (λ visited. walk_tar_entries (recorder answer) archive_format visited entries)
              (visit_tar_entry-Visited counted entry sanitized entry.entry_type
                (sanitize_path-IsEntryPath _ _ path below) one)
              (λ visited. walk_tar_entries-IsWithin visited entries small rest)

  visit_zip_entry-Visited :
      (budget : ArchiveTreeBudget) (entry : ZipEntry) (path : Bytes)
      → IsEntryPath path
      → content_size entry.content ≤ entry.size
      → Walks
          (Counted 0 budget)
          Visited
          (visit_zip_entry (recorder answer) archive_format budget entry path)
  unfolding visit_zip_entry
  visit_zip_entry-Visited budget entry path below sized =
      let link = read_zip_symlink_target (recorder answer) archive_format path entry in
      let mode = Option.map sanitize_unix_mode entry.unix_mode in
      if-Triple (IsWithin limits) Visited entry.is_dir _ _
        (visiting 0 budget (directory path) below (omega arith))
        (if-Triple (IsWithin limits) Visited (is_some_and entry.unix_mode is_symlink_mode) _ _
          (reserving budget path entry.size Visited _ λ reserved.
            checking 1 entry.size reserved Visited link _
              λ target e. visiting entry.size reserved (symlink path target) below (omega arith))
          (reserving budget path entry.size Visited _ λ reserved.
            visiting entry.size reserved (regular_file path entry.content mode) below sized))

  pub walk_zip_entries-IsWithin :
      (budget : ArchiveTreeBudget) (index : ℕ) (entries : List (Result Text ZipEntry))
      → limits.max_entries < 2 ^ 64 - 1
      → AllSized IsSizedZip entries
      → Walks
          (Visited budget)
          (λ u. IsWithin limits)
          (walk_zip_entries (recorder answer) archive_format budget index entries)
  unfolding walk_zip_entries sanitize_archive_path
  walk_zip_entries-IsWithin budget index [] small sized =
      λ visits c. IsCovered-IsWithin limits 0 0 budget visits c
  walk_zip_entries-IsWithin budget index (err e ∷ entries) small sized =
      λ visits c. IsCovered-IsWithin limits 0 0 budget visits c
  walk_zip_entries-IsWithin budget index (ok entry ∷ entries) small (one, rest) =
      let Good = λ (u : Unit {0}). IsWithin limits in
      let unnamed =
        invalid_archive_path archive_format (codes "#" ++ decimal index)
          "path escapes archive root" in
      checking 0 0 budget Good (ok_or entry.enclosed_name unnamed) _ λ name e.
        checking 0 0 budget Good (sanitize_archive_path archive_format name) _ λ enclosed below.
          counting budget enclosed Good _ small λ counted.
            >>=-Triple (IsWithin limits) Visited Good
              (visit_zip_entry (recorder answer) archive_format counted entry enclosed)
              (λ visited.
                walk_zip_entries (recorder answer) archive_format visited (index + 1) entries)
              (visit_zip_entry-Visited counted entry enclosed
                (sanitize_path-IsEntryPath _ _ name below) one)
              (λ visited. walk_zip_entries-IsWithin visited (index + 1) entries small rest)
