-- ===== src/Fs/Tests.antt =====
-- The theorems of the file system tools at a small policy: one writable root, literal globs, regular
-- expressions of one byte, and a file system where every path is its own canonical path.
use omne_runtime.Base.{
  ◌++◌, decimal, text_eq, ◌↔◌, ◌≡◌, ◌⊎◌, codes, Text, ℕ, List, Bytes, [], ◌∷◌, refl, some, none, ok,
  err, Option, true, false, ◌==◌, ◌+◌, ◌≤◌, if◌then◌else◌, contains, length, arith,
}
use omne_runtime.Base.Order.{lex_le, insert, sort, Pairs}
use omne_runtime.Fs.Context.{
  ensure_can_write, ensure_policy_permission, ensure_write_operation_allowed, reject_secret_path,
  find_runtime, root_runtime, insert_roots, canonical_root, validate_pair, declared_root,
  canonical_root_of, validate_pairs, canonical_roots_of, validate_canonical_roots_non_overlapping,
  build_from_policy, RootRuntime, FileSystem, Context, CanonicalRoot,
}
use omne_runtime.Fs.Context.Roots.{validate_canonical_roots_non_overlapping-IsDisjoint, IsDisjoint}
use omne_runtime.Fs.Edit.{
  FileAccess, replace_range, replace_line_endings, normalize_replacement_line_endings,
  end_replacement, ends_with, line_ending, end_line, end_content_line, scan_last_line, scan_lines,
  locate_edit_range_offsets, edit_content, EditRequest,
}
use omne_runtime.Fs.Edit.Content.{edit_content-IsEdited, IsEdited}
use omne_runtime.Fs.Edit.Lines.{split_lines}
use omne_runtime.Fs.Edit.Range.{locate_edit_range_offsets_lem, line_range_offsets}
use omne_runtime.Fs.Error.{invalid_policy}
use omne_runtime.Fs.Patch.{
  effective_patch_working_set_limit, estimated_patch_working_set_bytes,
  estimate_patched_content_len, patched_content, patch_header_path_error, normalized_header_value,
  normalized_patch_header_path, patch_header_matches_path, ensure_header_matches,
  strip_git_patch_prefix, strip_prefixed_non_empty, patch_headers_form_git_prefixed_pair,
  patch_uses_diffy_default_filenames, ensure_headers_match, ensure_patch_headers_match_target,
  insert_line, apply_unified_patch, PatchResponse, PatchRequest, Diffy,
}
use omne_runtime.Fs.Patch.Applied.{apply_unified_patch-IsPatched, IsPatched}
use omne_runtime.Fs.Paths.{
  paths_equal_case_insensitive, validate_root_relative_glob_pattern, strip_current_dirs,
  normalize_glob_pattern_for_matching, push_segments, reconstruct_path, normalize_component,
  normalize_components, normalize_path_lexical, join_segments, trim_segments, drop_components,
  strip_path_prefix, normalized_for_boundary, normalize_path_lexical_inner,
}
use omne_runtime.Fs.Paths.Normal.{normalize_path_lexical_inner-IsNormalForm, IsNormalForm}
use omne_runtime.Fs.Policy.{
  is_root_id_byte, is_valid_root_id, validate_root, validate_roots, validate_response_budget,
  validate_glob_response_budget, validate_limit, resolve_path_unchecked, workspace_write, read_only,
  validate_structural, validate_limits, resolve_path_checked, policy_root, SecretRules,
  SandboxPolicy, Root, Permissions, Limits,
}
use omne_runtime.Fs.Policy.Resolution.{resolve_path_checked-IsResolved, IsResolved}
use omne_runtime.Fs.Policy.Validation.{
  validate_limits_iff, validate_structural-member, IsValidLimits, IsValidRoot,
}
use omne_runtime.Fs.Redaction.{
  add_regex, add_regexes, directory_root, compile_and_add_deny_glob, accumulate_pattern_bytes,
  add_deny_glob, add_deny_globs, from_rules, normalize_relative_path, is_root_relative,
  is_path_denied, max_redacted_output_bytes, SecretRedactor, Patterns,
}
use omne_runtime.Fs.Redaction.Output.{
  redact_text_outcome_lem, redact_text_outcome_bounds, rewritten,
}
use omne_runtime.Fs.Redaction.Replace.{
  redacted_text, append_segment_with_limit, replace_matches, redact_passes,
  replace_regex_with_limit, redact_text_outcome,
}
use omne_runtime.Fs.Resolve.{
  derive_requested_path, resolve_path_in_root_lexically, canonical_path_in_root,
}
use omne_runtime.Fs.Resolve.Canonical.{canonical_path_in_root-IsCanonicalInRoot, IsCanonicalInRoot}
use omne_runtime.Fs.Traversal.{compile_traversal_skip_globs}
use omne_runtime.FsPath.{
  components_start_with, as_os_str, path_components, path_starts_with, components, push,
  is_absolute,
}
use omne_runtime.FsPath.Order.{path_le}
use omne_runtime.Text.{
  strip_prefix, starts_with, strip_suffix, is_ascii_lower, is_ascii_upper, is_ascii_alphabetic,
  is_ascii_digit, is_ascii_alphanumeric, as_bytes, is_whitespace, trim_end, trim_start, trim, split,
}

-- Where a byte stands, as matches.
byte_matches : ℕ → ℕ → Bytes → List (ℕ × ℕ)
byte_matches at byte [] = []
byte_matches at byte (c ∷ bytes) =
    let rest = byte_matches (at + 1) byte bytes in if c == byte then (at, at + 1) ∷ rest else rest

first_byte : Text → Option ℕ
first_byte [] = none
first_byte (c ∷ text) = some c

abbrev literals : Patterns
literals = record {
  Glob = Text;
  GlobSet = List Text;
  Regex = ℕ;
  build_glob = λ text. some text;
  build_set = λ globs. some globs;
  is_match = λ globs path. contains globs path;
  new_regex = first_byte;
  find_iter = λ byte text. byte_matches 0 byte text;
}

abbrev plain_files : FileSystem
plain_files = record {
  canonicalize = λ path. ok path;
  is_dir = λ path. ok true;
  is_symlink = λ path. ok false;
  read_link = λ path. err (record { is_not_found = false });
}

abbrev all_permissions : Permissions
all_permissions = record {
  read = true;
  glob = true;
  grep = true;
  list_dir = true;
  stat = true;
  edit = true;
  patch = true;
  delete = true;
  mkdir = true;
  write = true;
  move_path = true;
  copy_file = true;
}

abbrev small_limits : Limits
small_limits = record {
  max_read_bytes = 100;
  max_patch_bytes = some 50;
  max_write_bytes = 100;
  max_results = 10;
  max_walk_entries = 20;
  max_walk_files = 20;
  max_walk_ms = none;
  max_line_bytes = 40;
  max_glob_bytes = none;
  preserve_unix_xattrs = true;
}

abbrev work_root : Root
work_root = record { id = codes "work"; path = codes "/srv/work"; write_scope = workspace_write }

abbrev secrets : SecretRules
secrets = record {
  deny_globs = codes ".env" ∷ [];
  redact_regexes = codes "k" ∷ [];
  replacement = codes "***";
}

abbrev work_policy : SandboxPolicy
work_policy = record {
  roots = work_root ∷ [];
  permissions = all_permissions;
  limits = small_limits;
  secrets = secrets;
  skip_globs = [];
  allow_absolute = false;
}

abbrev redactor : SecretRedactor literals
redactor = record { deny = codes ".env" ∷ []; redact = b'k' ∷ []; replacement = codes "***" }

abbrev work_runtime : RootRuntime
work_runtime = record {
  declared_path = codes "/srv/work";
  canonical_path = codes "/srv/work";
  write_scope = workspace_write;
}

abbrev work_context : Context literals
work_context = record {
  policy = work_policy;
  redactor = redactor;
  roots = (codes "work", work_runtime) ∷ [];
  traversal_skip_globs = none;
}

build_from_policy_run : build_from_policy literals plain_files work_policy ≡ ok work_context
unfolding build_from_policy canonical_roots_of canonical_root_of insert_roots
    compile_traversal_skip_globs validate_structural validate_limits validate_limit
    validate_glob_response_budget validate_response_budget validate_roots validate_root trim
    trim_start trim_end is_whitespace codes decimal text_eq as_bytes is_valid_root_id
    is_root_id_byte is_ascii_alphanumeric is_ascii_digit is_ascii_alphabetic is_ascii_upper
    is_ascii_lower is_absolute from_rules add_deny_globs add_deny_glob accumulate_pattern_bytes
    normalize_glob_pattern_for_matching strip_current_dirs compile_and_add_deny_glob
    validate_root_relative_glob_pattern directory_root strip_suffix split starts_with add_regexes
    add_regex first_byte validate_canonical_roots_non_overlapping validate_pairs validate_pair sort
    insert path_le lex_le components path_starts_with path_components as_os_str
    components_start_with normalized_for_boundary
build_from_policy_run = refl

-- Two roots beside each other, and one whose name begins with the other's.
abbrev canonical_at : Bytes → CanonicalRoot
canonical_at path = record {
  id = path;
  declared_path = path;
  canonical_path = path;
  write_scope = read_only;
}

abbrev three_roots : List CanonicalRoot
three_roots =
    canonical_at (codes "/b") ∷ canonical_at (codes "/a/x") ∷ canonical_at (codes "/a/xy") ∷ []

nested_roots :
    validate_canonical_roots_non_overlapping
      (canonical_at (codes "/a/x/y") ∷ canonical_at (codes "/b") ∷ canonical_at (codes "/a") ∷ [])
    ≡ err (invalid_policy (codes "root /a overlaps with root /a/x/y"))
unfolding validate_canonical_roots_non_overlapping validate_pairs validate_pair sort insert path_le
    lex_le components split path_starts_with path_components as_os_str components_start_with
    normalized_for_boundary text_eq codes is_absolute paths_equal_case_insensitive
nested_roots = refl

validate_limits_iff_example : (validate_limits small_limits ≡ ok tt) ↔ IsValidLimits small_limits
validate_limits_iff_example = validate_limits_iff small_limits

validate_structural_run : validate_structural work_policy ≡ ok tt
unfolding validate_structural validate_limits validate_limit validate_glob_response_budget
    validate_response_budget validate_roots validate_root trim trim_start trim_end is_whitespace
    codes decimal text_eq as_bytes is_valid_root_id is_root_id_byte is_ascii_alphanumeric
    is_ascii_digit is_ascii_alphabetic is_ascii_upper is_ascii_lower is_absolute
validate_structural_run = refl

validate_structural-member_example :
    IsValidRoot work_root × (policy_root work_policy work_root.id ≡ ok work_root)
validate_structural-member_example =
    validate_structural-member work_policy [] [] work_root validate_structural_run refl

abbrev asked : Bytes
asked = codes "a/../b/./c"

abbrev resolved : Bytes
resolved = codes "/srv/work/b/c"

resolve_path_checked_run : resolve_path_checked work_policy (codes "work") asked ≡ ok resolved
unfolding resolve_path_checked resolve_path_unchecked policy_root codes text_eq is_absolute push
    normalized_for_boundary components split path_starts_with path_components as_os_str
    components_start_with normalize_path_lexical normalize_path_lexical_inner normalize_components
    normalize_component reconstruct_path push_segments
resolve_path_checked_run = refl

policy_root_run : policy_root work_policy (codes "work") ≡ ok work_root
unfolding policy_root codes text_eq
policy_root_run = refl

is_absolute_run : is_absolute work_root.path ≡ true
unfolding is_absolute codes
is_absolute_run = refl

resolve_path_checked-IsResolved_example :
    IsResolved work_policy (codes "work") asked resolved work_root
resolve_path_checked-IsResolved_example =
    resolve_path_checked-IsResolved work_policy (codes "work") asked resolved work_root
      policy_root_run is_absolute_run resolve_path_checked_run

normalize_path_lexical_inner-IsNormalForm_example :
    IsNormalForm (normalize_path_lexical_inner asked)
    × ((normalize_path_lexical_inner asked).has_root ≡ is_absolute asked)
normalize_path_lexical_inner-IsNormalForm_example = normalize_path_lexical_inner-IsNormalForm asked

canonical_path_in_root_run :
    canonical_path_in_root literals plain_files work_context (codes "work") asked
    ≡ ok (resolved, codes "b/c", codes "b/c")
unfolding canonical_path_in_root resolve_path_in_root_lexically declared_root canonical_root
    root_runtime find_runtime derive_requested_path strip_path_prefix drop_components trim_segments
    join_segments reject_secret_path is_path_denied is_root_relative normalize_relative_path
    resolve_path_checked resolve_path_unchecked policy_root codes text_eq is_absolute push
    normalized_for_boundary components split path_starts_with path_components as_os_str
    components_start_with normalize_path_lexical normalize_path_lexical_inner normalize_components
    normalize_component reconstruct_path push_segments
canonical_path_in_root_run = refl

canonical_path_in_root-IsCanonicalInRoot_example :
    IsCanonicalInRoot literals plain_files work_context
      (codes "work")
      asked
      resolved
      (codes "b/c")
      (codes "b/c")
canonical_path_in_root-IsCanonicalInRoot_example =
    canonical_path_in_root-IsCanonicalInRoot literals plain_files work_context (codes "work") asked
      resolved (codes "b/c") (codes "b/c") canonical_path_in_root_run

three_roots_run : validate_canonical_roots_non_overlapping three_roots ≡ ok tt
unfolding validate_canonical_roots_non_overlapping validate_pairs validate_pair sort insert path_le
    lex_le components split path_starts_with path_components as_os_str components_start_with
    normalized_for_boundary text_eq codes is_absolute paths_equal_case_insensitive
three_roots_run = refl

validate_canonical_roots_non_overlapping-IsDisjoint_example : Pairs IsDisjoint three_roots
validate_canonical_roots_non_overlapping-IsDisjoint_example =
    validate_canonical_roots_non_overlapping-IsDisjoint three_roots three_roots_run

abbrev spoken : Bytes
spoken = codes "a k, two kk"

-- Four passes: the second finds nothing, and the last writes the buffer that the first wrote.
abbrev four_passes : SecretRedactor literals
four_passes = record {
  deny = codes ".env" ∷ [];
  redact = b'k' ∷ b'x' ∷ b't' ∷ b'w' ∷ [];
  replacement = codes "***";
}

redact_text_outcome_example :
    redact_text_outcome literals four_passes spoken
    ≡ rewritten literals four_passes.replacement four_passes.redact spoken
redact_text_outcome_example = redact_text_outcome_lem literals four_passes spoken

four_passes_run :
    redact_text_outcome literals four_passes spoken ≡ redacted_text (codes "a ***, ******o ******")
unfolding redact_text_outcome redact_passes replace_regex_with_limit replace_matches
    append_segment_with_limit byte_matches codes
four_passes_run = refl

redact_text_outcome_run :
    redact_text_outcome literals redactor spoken ≡ redacted_text (codes "a ***, two ******")
unfolding redact_text_outcome redact_passes replace_regex_with_limit replace_matches
    append_segment_with_limit byte_matches codes
redact_text_outcome_run = refl

redact_text_outcome_bounds_example :
    (codes "a ***, two ******" ≡ spoken)
    ⊎ (length (codes "a ***, two ******") ≤ max_redacted_output_bytes)
redact_text_outcome_bounds_example =
    redact_text_outcome_bounds literals redactor spoken (codes "a ***, two ******")
      redact_text_outcome_run

-- Three lines, with each of the endings.
abbrev three_lines : Bytes
three_lines = b'a' ∷ b'\n' ∷ b'b' ∷ b'c' ∷ b'\r' ∷ b'\n' ∷ b'd' ∷ b'\r' ∷ []

locate_edit_range_offsets_example :
    locate_edit_range_offsets three_lines 2 3 ≡ line_range_offsets (split_lines three_lines) 2 3
locate_edit_range_offsets_example =
    locate_edit_range_offsets_lem three_lines 2 3 (omega arith) (omega arith) (omega arith)

abbrev edit_request : EditRequest
edit_request = record {
  root_id = codes "work";
  path = codes "a.txt";
  start_line = 2;
  end_line = 2;
  replacement = b'x' ∷ b'\n' ∷ b'y' ∷ [];
}

abbrev edited_lines : Bytes
edited_lines = b'a' ∷ b'\n' ∷ b'x' ∷ b'\r' ∷ b'\n' ∷ b'y' ∷ b'\r' ∷ b'\n' ∷ b'd' ∷ b'\r' ∷ []

edit_content_run :
    edit_content (codes "a.txt") 100 edit_request three_lines ≡ ok (some edited_lines)
unfolding edit_content locate_edit_range_offsets scan_lines scan_last_line end_content_line end_line
    line_ending ends_with text_eq codes end_replacement normalize_replacement_line_endings
    replace_line_endings replace_range
edit_content_run = refl

edit_content-IsEdited_example : IsEdited 100 edit_request three_lines edited_lines
edit_content-IsEdited_example =
    edit_content-IsEdited (codes "a.txt") 100 edit_request three_lines edited_lines (omega arith)
      (omega arith) (omega arith) edit_content_run

-- A patch that adds one mark to the file `notes.txt`.
abbrev mark : Diffy
mark = record {
  Patch = Text;
  parse = λ text. some text;
  original = λ text. some (codes "a/notes.txt");
  modified = λ text. some (codes "b/notes.txt");
  hunk_lines = λ text. insert_line (codes "!") ∷ [];
  apply = λ content text. some (content ++ codes "!");
}

abbrev one_file : FileAccess
one_file = record {
  Identity = Unit {0};
  read_string = λ path relative max_bytes. ok (codes "hi", tt);
  write_bytes = λ path relative content expected preserve. ok tt;
}

abbrev patch_request : PatchRequest
patch_request = record { root_id = codes "work"; path = codes "notes.txt"; patch_text = codes "+!" }

abbrev patch_response : PatchResponse
patch_response = record {
  path = codes "notes.txt";
  requested_path = codes "notes.txt";
  bytes_written = 3;
}

apply_unified_patch_run :
    apply_unified_patch literals plain_files work_context one_file mark patch_request
    ≡ ok patch_response
unfolding apply_unified_patch ensure_write_operation_allowed ensure_policy_permission
    ensure_can_write as_bytes ensure_patch_headers_match_target ensure_headers_match
    patch_uses_diffy_default_filenames patch_headers_form_git_prefixed_pair strip_prefixed_non_empty
    strip_prefix strip_git_patch_prefix ensure_header_matches patch_header_matches_path
    normalized_patch_header_path normalized_header_value strip_current_dirs patch_header_path_error
    paths_equal_case_insensitive patched_content estimate_patched_content_len
    estimated_patch_working_set_bytes effective_patch_working_set_limit canonical_path_in_root
    resolve_path_in_root_lexically declared_root canonical_root root_runtime find_runtime
    derive_requested_path strip_path_prefix drop_components trim_segments join_segments
    reject_secret_path is_path_denied is_root_relative normalize_relative_path resolve_path_checked
    resolve_path_unchecked policy_root codes text_eq is_absolute push normalized_for_boundary
    components split path_starts_with path_components as_os_str components_start_with
    normalize_path_lexical normalize_path_lexical_inner normalize_components normalize_component
    reconstruct_path push_segments
apply_unified_patch_run = refl

apply_unified_patch-IsPatched_example :
    IsPatched literals plain_files work_context one_file mark patch_request patch_response
apply_unified_patch-IsPatched_example =
    apply_unified_patch-IsPatched literals plain_files work_context one_file mark patch_request
      patch_response apply_unified_patch_run
