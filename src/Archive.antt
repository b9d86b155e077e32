-- ===== src/Archive.antt =====
-- crates/omne-archive-primitives/src/archive_tree.rs and the formats of binary_archive.rs: the entries
-- of an archive are handed to a visitor, in their order. What the crates tar and zip read is data.
pub mod Walk
pub mod Paths
mod Tests
use omne_runtime.Base.{
  [], ◌∷◌, List, not, ℕ, ◌+◌, ◌*◌, ◌^◌, ◌-◌, min, Bool, true, false, Option, none, some, Text,
  Bytes, Result, ok, err, codes, ltb, is_some, if◌then◌else◌, String, ensure, ok_or, ◌>>=◌, ◌>>◌,
  ◌==◌, ◌/◌, ◌%◌,
}
use omne_runtime.FsPath.{Component, root_dir, cur_dir, parent_dir, normal, components, push}
use omne_runtime.Text.{strip_suffix, to_string_lossy, is_empty}

pub data BinaryArchiveFormat : Type 0 where
  tar_gz tar_xz zip : BinaryArchiveFormat

abbrev ends_with : Text → Text → Bool
ends_with suffix t = is_some (strip_suffix suffix t)

unfoldable pub from_asset_name : Text → Option BinaryArchiveFormat
unfolding codes
from_asset_name asset_name =
    if ends_with (codes ".tar.gz") asset_name
    then some tar_gz
    else if ends_with (codes ".tar.xz") asset_name
    then some tar_xz
    else if ends_with (codes ".zip") asset_name
    then some zip
    else none

pub record ArchiveTreeExtractionLimits : Type 0 where
  pub max_extracted_bytes : ℕ
  pub max_entries : ℕ

-- `ArchiveTreeExtractionLimits::default`
abbrev pub default_extraction_limits : ArchiveTreeExtractionLimits
default_extraction_limits = record { max_extracted_bytes = 1024 * 1024 * 1024; max_entries = 65536 }

abbrev pub max_zip_symlink_target_bytes : ℕ
max_zip_symlink_target_bytes = 16 * 1024

-- A detail of `archive_read` is what the crates tar and zip say.
pub data WalkArchiveTreeError (E : Type 0) : Type 0 where
  unsupported_archive_type : Text → WalkArchiveTreeError E
  archive_read : BinaryArchiveFormat → (stage : String) → (detail : Text) → WalkArchiveTreeError E
  invalid_archive_path : BinaryArchiveFormat → Text → (detail : String) → WalkArchiveTreeError E
  unsupported_archive_entry : BinaryArchiveFormat → Text → (detail : Text) → WalkArchiveTreeError E
  extraction_budget_exceeded :
      BinaryArchiveFormat → Text → (limit_bytes : ℕ) → WalkArchiveTreeError E
  archive_entry_budget_exceeded :
      BinaryArchiveFormat → Text → (limit_entries : ℕ) → WalkArchiveTreeError E
  visitor_error : E → WalkArchiveTreeError E

-- The loop over the components of a path; it returns the error where one could leave the root.
unfoldable pub sanitize_components {ℓ} : {E : Type ℓ} → E → Bytes → List Component → Result E Bytes
unfolding push
sanitize_components escapes sanitized [] = ok sanitized
sanitize_components escapes sanitized (normal part ∷ cs) =
    sanitize_components escapes (push sanitized part) cs
sanitize_components escapes sanitized (cur_dir ∷ cs) = sanitize_components escapes sanitized cs
sanitize_components escapes sanitized (root_dir ∷ cs) = err escapes
sanitize_components escapes sanitized (parent_dir ∷ cs) = err escapes

abbrev pub sanitize_path {ℓ} : {E : Type ℓ} → (escapes empty : E) → Bytes → Result E Bytes
sanitize_path escapes empty path = sanitize_components escapes [] (components path) >>= λ sanitized.
    if is_empty sanitized then err empty else ok sanitized

abbrev pub sanitize_unix_mode : ℕ → ℕ
sanitize_unix_mode mode = mode % 512

-- `(mode & 0o170000) == 0o120000`
abbrev is_symlink_mode : ℕ → Bool
is_symlink_mode mode = mode / 4096 % 16 == 10

pub record ArchiveTreeBudget : Type 0 where
  pub archive_format : BinaryArchiveFormat
  pub limits : ArchiveTreeExtractionLimits
  pub extracted_bytes : ℕ
  pub entries : ℕ

abbrev pub new_budget : BinaryArchiveFormat → ArchiveTreeExtractionLimits → ArchiveTreeBudget
new_budget archive_format limits = record {
  archive_format = archive_format;
  limits = limits;
  extracted_bytes = 0;
  entries = 0;
}

module _ {E : Type 0} where
  unfoldable pub sanitize_archive_path :
      BinaryArchiveFormat → Bytes → Result (WalkArchiveTreeError E) Bytes
  unfolding sanitize_components to_string_lossy
  sanitize_archive_path archive_format path =
      sanitize_path
        (invalid_archive_path archive_format (to_string_lossy path)
          "path must stay within the archive root")
        (invalid_archive_path archive_format (to_string_lossy path) "path must not be empty") path

  -- `entries` is a `u64` that `saturating_add` keeps below its limit.
  unfoldable pub record_entry :
      ArchiveTreeBudget → Bytes → Result (WalkArchiveTreeError E) ArchiveTreeBudget
  unfolding to_string_lossy
  record_entry budget path =
      let entries = min (budget.entries + 1) (2 ^ 64 - 1) in
      if ltb budget.limits.max_entries entries
      then err (
          archive_entry_budget_exceeded budget.archive_format (to_string_lossy path)
            budget.limits.max_entries)
      else ok (record budget { entries = entries })

  -- `checked_add` of `u64`
  unfoldable pub reserve_bytes :
      ArchiveTreeBudget → Bytes → ℕ → Result (WalkArchiveTreeError E) ArchiveTreeBudget
  unfolding to_string_lossy
  reserve_bytes budget path bytes =
      let exceeded =
        extraction_budget_exceeded budget.archive_format (to_string_lossy path)
          budget.limits.max_extracted_bytes in
      let extracted_bytes = budget.extracted_bytes + bytes in
      if not (ltb extracted_bytes (2 ^ 64))
      then err exceeded
      else if ltb budget.limits.max_extracted_bytes extracted_bytes
      then err exceeded
      else ok (record budget { extracted_bytes = extracted_bytes })
