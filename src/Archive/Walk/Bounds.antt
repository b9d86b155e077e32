-- ===== src/Archive/Walk/Bounds.antt =====
-- archive_tree.rs: a walk hands over entries within the limits, and their paths stay below the root.
use omne_runtime.Base.{
  inr, inl, Option-cases, refl, arith, ◌-◌, ◌^◌, ◌<◌, List, [], Text, Result, ok, err,
}
use omne_runtime.Base.Actions.{Outcome-state}
use omne_runtime.Archive.{
  tar_gz, tar_xz, zip, from_asset_name, new_budget, BinaryArchiveFormat,
  ArchiveTreeExtractionLimits,
}
use omne_runtime.Archive.Walk.{
  walk_zip_tree, ZipEntry, Archives, walk_zip_entries, walk_tar_tree, walk_archive_tree, Listing,
  TarEntry, walk_tar_entries,
}
use omne_runtime.Archive.Walk.Entries.{walk_zip_entries-IsWithin, walk_tar_entries-IsWithin}
use omne_runtime.Archive.Walk.Limits.{
  IsSizedZip, recorder, IsSizedTar, IsCovered-IsWithin, AllSized, IsWithin, IsCovered, Visit,
}

-- The entries of an archive, where they can be listed
abbrev pub IsSizedListing : {A : Type 0} → (Result Text A → Type 0) → Listing A → Type 0
IsSizedListing P (ok entries) = AllSized P entries
IsSizedListing P (err e) = Unit

module _ {E : Type 0} (limits : ArchiveTreeExtractionLimits)
    (answer : List Visit → Result E (Unit {0})) where
  nothing-IsCovered :
      (archive_format : BinaryArchiveFormat)
      → IsCovered limits 0 0 (new_budget archive_format limits) []
  nothing-IsCovered archive_format = record {
    paths = tt;
    counted = omega arith;
    sized = omega arith;
    entry_limit = omega arith;
    byte_limit = omega arith;
    same_limits = refl;
  }

  walk_tar_tree-IsWithin :
      (archive_format : BinaryArchiveFormat) (archive : Listing TarEntry)
      → limits.max_entries < 2 ^ 64 - 1
      → IsSizedListing IsSizedTar archive
      → IsWithin limits (walk_tar_tree archive_format archive limits (recorder answer) []).1
  unfolding walk_tar_tree
  walk_tar_tree-IsWithin archive_format (err e) small sized =
      IsCovered-IsWithin limits 0 0 _ [] (nothing-IsCovered archive_format)
  walk_tar_tree-IsWithin archive_format (ok entries) small sized =
      Outcome-state (IsWithin limits)
        (walk_tar_entries (recorder answer) archive_format (new_budget archive_format limits)
          entries [])
        (walk_tar_entries-IsWithin limits answer archive_format (new_budget archive_format limits)
          entries small sized [] (nothing-IsCovered archive_format))

  walk_zip_tree-IsWithin :
      (archive_format : BinaryArchiveFormat) (archive : Listing ZipEntry)
      → limits.max_entries < 2 ^ 64 - 1
      → IsSizedListing IsSizedZip archive
      → IsWithin limits (walk_zip_tree archive_format archive limits (recorder answer) []).1
  unfolding walk_zip_tree
  walk_zip_tree-IsWithin archive_format (err e) small sized =
      IsCovered-IsWithin limits 0 0 _ [] (nothing-IsCovered archive_format)
  walk_zip_tree-IsWithin archive_format (ok entries) small sized =
      Outcome-state (IsWithin limits)
        (walk_zip_entries (recorder answer) archive_format (new_budget archive_format limits) 0
          entries [])
        (walk_zip_entries-IsWithin limits answer archive_format (new_budget archive_format limits) 0
          entries small sized [] (nothing-IsCovered archive_format))

  -- When the permitted number of entries is below 2 ^ 64 - 1 and no content is longer than the size
  -- its entry declares, a walk hands a visitor no more entries than permitted, no more bytes of
  -- file contents than permitted, and only relative paths that are made of one or more names which
  -- are neither `.` nor `..`, whatever the visitor answers.
  pub walk_archive_tree-IsWithin :
      (asset_name : Text) (archives : Archives)
      → limits.max_entries < 2 ^ 64 - 1
      → IsSizedListing IsSizedTar archives.tar
      → IsSizedListing IsSizedZip archives.zip
      → IsWithin limits (walk_archive_tree asset_name archives limits (recorder answer) []).1
  unfolding walk_archive_tree
  walk_archive_tree-IsWithin asset_name archives small tar_sized zip_sized =
      elim (Option-cases (from_asset_name asset_name)) [
        | inl unsupported ↦
            rw (walk_archive_tree, unsupported)
              (IsCovered-IsWithin limits 0 0 (new_budget zip limits) [] (nothing-IsCovered zip))
        | inr (tar_gz, e) ↦
            rw (walk_archive_tree, e) (walk_tar_tree-IsWithin tar_gz archives.tar small tar_sized)
        | inr (tar_xz, e) ↦
            rw (walk_archive_tree, e) (walk_tar_tree-IsWithin tar_xz archives.tar small tar_sized)
        | inr (zip, e) ↦
            rw (walk_archive_tree, e) (walk_zip_tree-IsWithin zip archives.zip small zip_sized)
      ]
