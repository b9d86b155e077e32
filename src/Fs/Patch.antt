-- ===== src/Fs/Patch.antt =====
-- crates/omne-fs/src/ops/patch.rs, with the feature `patch`: a unified diff applied to a file. The
-- crate diffy, which parses and applies it, is a parameter.
pub mod Applied
pub mod Headers
pub mod Names
use omne_runtime.Base.{
  text_eq, length, Bool, ℕ, Text, Option, List, Bytes, String, Result, ok_or, not, ensure, codes,
  ◌&&◌, ◌||◌, min, if◌then◌else◌, some, none, true, false, [], ◌∷◌, ◌++◌, err, ok, ◌>>=◌, ◌>>◌, leb,
  ltb, any, ◌+◌, ◌-◌, ◌^◌, ◌*◌,
}
use omne_runtime.Fs.Context.{ensure_write_operation_allowed, Context, FileSystem}
use omne_runtime.Fs.Edit.{FileAccess}
use omne_runtime.Fs.Error.{input_too_large, file_too_large, patch, checked, FsResult}
use omne_runtime.Fs.Paths.{strip_current_dirs, paths_equal_case_insensitive, normalize_path_lexical}
use omne_runtime.Fs.Policy.{Limits}
use omne_runtime.Fs.Redaction.{Patterns}
use omne_runtime.Fs.Resolve.{canonical_path_in_root}
use omne_runtime.FsPath.{cur_dir, root_dir, parent_dir, normal, components, Component}
use omne_runtime.Text.{as_bytes, is_empty, strip_prefix}

-- `diffy::Line`, with the text as its bytes
pub data PatchLine : Type 0 where
  context_line insert_line delete_line : Bytes → PatchLine

pub record Diffy : Type 1 where
  pub Patch : Type 0
  pub parse : Text → Option Patch
  pub original : Patch → Option Text
  pub modified : Patch → Option Text
  -- The lines of the hunks, in order
  pub hunk_lines : Patch → List PatchLine
  pub apply : Bytes → Patch → Option Bytes

abbrev pub max_patch_working_set_bytes : ℕ
max_patch_working_set_bytes = 512 * 1024 * 1024

pub data PatchHeaderPathError : Type 0 where
  empty_path absolute_path parent_segment : PatchHeaderPathError

pub data PatchHeaderMatchResult : Type 0 where
  header_match header_mismatch : PatchHeaderMatchResult
  header_invalid : PatchHeaderPathError → PatchHeaderMatchResult

pub data NormalizedPatchHeaderPath : Type 0 where
  header_path : Bytes → NormalizedPatchHeaderPath
  invalid_header : PatchHeaderPathError → NormalizedPatchHeaderPath
  missing_git_prefix : NormalizedPatchHeaderPath

-- `saturating_add` of `u64`
abbrev pub saturating_add : ℕ → ℕ → ℕ
saturating_add a b = min (a + b) (2 ^ 64 - 1)

unfoldable pub patch_uses_diffy_default_filenames : Text → Text → Bool
patch_uses_diffy_default_filenames original_header modified_header =
    text_eq original_header (codes "original") && text_eq modified_header (codes "modified")

-- The bytes that the lines insert and those that they delete. The difference is an `i128` in the
-- source, which the lengths of texts in memory do not overflow.
abbrev pub line_sizes : List PatchLine → ℕ × ℕ
line_sizes [] = (0, 0)
line_sizes (context_line text ∷ lines) = line_sizes lines
line_sizes (insert_line text ∷ lines) =
    let (inserted, deleted) = line_sizes lines in (length text + inserted, deleted)
line_sizes (delete_line text ∷ lines) =
    let (inserted, deleted) = line_sizes lines in (inserted, length text + deleted)

unfoldable pub estimate_patched_content_len : ℕ → List PatchLine → Option ℕ
estimate_patched_content_len content_len lines =
    let (inserted, deleted) = line_sizes lines in
    if leb deleted (content_len + inserted)
    then checked (content_len + inserted - deleted)
    else none

unfoldable pub estimated_patch_working_set_bytes : ℕ → ℕ → ℕ → Option ℕ
estimated_patch_working_set_bytes content_len patch_len updated_len =
    elim (checked (content_len + patch_len)) [
      | none ↦ none
      | some sum ↦ checked (sum + updated_len)
    ]

unfoldable pub effective_patch_working_set_limit : ℕ → ℕ → ℕ → ℕ
effective_patch_working_set_limit max_read_bytes max_patch_bytes max_write_bytes =
    min (saturating_add (saturating_add max_read_bytes max_patch_bytes) max_write_bytes)
      max_patch_working_set_bytes

unfoldable pub strip_prefixed_non_empty : Text → Text → Option Text
strip_prefixed_non_empty value prefix = elim (strip_prefix prefix value) [
  | none ↦ none
  | some stripped ↦ if is_empty stripped then none else some stripped
]

abbrev pub has_prefix : Text → Text → Bool
has_prefix value prefix = elim (strip_prefixed_non_empty value prefix) [
  | none ↦ false
  | some s ↦ true
]

unfoldable pub patch_headers_form_git_prefixed_pair : Text → Text → Bool
patch_headers_form_git_prefixed_pair original_header modified_header =
    has_prefix original_header (codes "a/") && has_prefix modified_header (codes "b/")
    || has_prefix original_header (codes "b/") && has_prefix modified_header (codes "a/")

unfoldable pub strip_git_patch_prefix : Text → Option Text
strip_git_patch_prefix header = elim (strip_prefixed_non_empty header (codes "a/")) [
  | none ↦ strip_prefixed_non_empty header (codes "b/")
  | some stripped ↦ some stripped
]

abbrev pub first_path_error : List Component → Option PatchHeaderPathError
first_path_error [] = none
first_path_error (parent_dir ∷ cs) = some parent_segment
first_path_error (root_dir ∷ cs) = some absolute_path
first_path_error (cur_dir ∷ cs) = first_path_error cs
first_path_error (normal s ∷ cs) = first_path_error cs

unfoldable pub patch_header_path_error : Bytes → Option PatchHeaderPathError
patch_header_path_error path = first_path_error (components path)

-- The part of `normalized_patch_header_path` behind the prefix of git
unfoldable pub normalized_header_value : Text → NormalizedPatchHeaderPath
normalized_header_value stripped =
    let value = strip_current_dirs stripped in
    if is_empty value
    then invalid_header empty_path
    else elim (patch_header_path_error (as_bytes value)) [
      | none ↦ header_path (normalize_path_lexical (as_bytes value))
      | some kind ↦ invalid_header kind
    ]

unfoldable pub normalized_patch_header_path : Text → Bool → NormalizedPatchHeaderPath
normalized_patch_header_path header false = normalized_header_value header
normalized_patch_header_path header true = elim (strip_git_patch_prefix header) [
  | none ↦ missing_git_prefix
  | some stripped ↦ normalized_header_value stripped
]

-- One of the two tests of `patch_header_matches_path`: the result where no test behind it decides.
abbrev pub match_header :
    Bytes → PatchHeaderMatchResult → NormalizedPatchHeaderPath → PatchHeaderMatchResult
match_header requested otherwise (header_path path) =
    if paths_equal_case_insensitive path requested then header_match else otherwise
match_header requested otherwise (invalid_header kind) = header_invalid kind
match_header requested otherwise missing_git_prefix = otherwise

abbrev pub is_match_result : PatchHeaderMatchResult → Bool
is_match_result header_match = true
is_match_result _ = false

unfoldable pub patch_header_matches_path : Text → Bytes → Bool → PatchHeaderMatchResult
patch_header_matches_path header requested_path allow_git_prefix_strip =
    let requested = normalize_path_lexical requested_path in
    let plain =
      match_header requested header_mismatch (normalized_patch_header_path header false) in
    if is_match_result plain || not allow_git_prefix_strip
    then plain
    else match_header requested plain (normalized_patch_header_path header true)

unfoldable pub ensure_header_matches : Text → Bytes → Bool → FsResult (Unit {0})
ensure_header_matches header requested_path allow_git_prefix_strip =
    elim (patch_header_matches_path header requested_path allow_git_prefix_strip) [
      | header_match ↦ ok tt
      | header_mismatch ↦ err (patch "patch header does not match target")
      | header_invalid kind ↦ err (patch "patch header is invalid")
    ]

-- The headers that diffy writes where it has no names match every file.
unfoldable pub ensure_headers_match : Text → Text → Bytes → Bool → FsResult (Unit {0})
ensure_headers_match original_header modified_header requested_path allow =
    if patch_uses_diffy_default_filenames original_header modified_header
    then ok tt
    else ensure_header_matches original_header requested_path allow
      >> ensure_header_matches modified_header requested_path allow

module _ (diffy : Diffy) where
  unfoldable pub ensure_patch_headers_match_target : diffy.Patch → Bytes → FsResult (Unit {0})
  ensure_patch_headers_match_target parsed requested_path = do
    original_header ← ok_or (diffy.original parsed) (patch "patch original header is missing")
    modified_header ← ok_or (diffy.modified parsed) (patch "patch modified header is missing")
    let allow = patch_headers_form_git_prefixed_pair original_header modified_header
    ensure_headers_match original_header modified_header requested_path allow

  -- The part of `apply_unified_patch` between the reading and the writing.
  unfoldable pub patched_content : Limits → ℕ → Bytes → Text → diffy.Patch → Bytes → FsResult Bytes
  patched_content limits max_patch_bytes relative text parsed content = do
    estimated ←
        ok_or (estimate_patched_content_len (length content) (diffy.hunk_lines parsed))
          (patch "patch size delta overflow")
    ensure (leb estimated limits.max_write_bytes)
        (file_too_large relative estimated limits.max_write_bytes)
    let max_working_set =
        effective_patch_working_set_limit limits.max_read_bytes max_patch_bytes
          limits.max_write_bytes
    working_set ←
        ok_or
          (estimated_patch_working_set_bytes (length content) (length (as_bytes text)) estimated)
          (input_too_large (2 ^ 64 - 1) max_working_set)
    ensure (leb working_set max_working_set) (input_too_large working_set max_working_set)
    updated ← ok_or (diffy.apply content parsed) (patch "patch does not apply")
    ensure (leb (length updated) limits.max_write_bytes)
        (file_too_large relative (length updated) limits.max_write_bytes)
    ok updated

pub record PatchRequest : Type 0 where
  pub root_id : Text
  pub path : Bytes
  pub patch_text : Text

pub record PatchResponse : Type 0 where
  pub path : Bytes
  pub requested_path : Bytes
  pub bytes_written : ℕ

-- `unwrap_or`
abbrev pub limit_or : Option ℕ → ℕ → ℕ
limit_or none default = default
limit_or (some limit) default = limit

module _ (patterns : Patterns) (fs : FileSystem) (ctx : Context patterns) (io : FileAccess)
    (diffy : Diffy) where
  unfoldable pub apply_unified_patch : PatchRequest → FsResult PatchResponse
  apply_unified_patch request = do
    ensure_write_operation_allowed patterns ctx request.root_id ctx.policy.permissions.patch "patch"
    (path, relative, requested_path) ←
        canonical_path_in_root patterns fs ctx request.root_id request.path
    let limits = ctx.policy.limits
    let max_patch_bytes = limit_or limits.max_patch_bytes limits.max_read_bytes
    let patch_bytes = length (as_bytes request.patch_text)
    ensure (leb patch_bytes max_patch_bytes) (input_too_large patch_bytes max_patch_bytes)
    parsed ← ok_or (diffy.parse request.patch_text) (patch "patch does not parse")
    ensure_patch_headers_match_target diffy parsed requested_path
    (content, identity) ← io.read_string path relative limits.max_read_bytes
    updated ←
        patched_content diffy limits max_patch_bytes relative request.patch_text parsed content
    (if text_eq updated content
        then ok (record { path = relative; requested_path = requested_path; bytes_written = 0 })
        else io.write_bytes path relative updated identity limits.preserve_unix_xattrs
          >> ok (record {
            path = relative;
            requested_path = requested_path;
            bytes_written = length updated;
          }))
