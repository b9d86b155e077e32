-- ===== src/Fs/Policy.antt =====
-- crates/omne-fs/src/policy.rs: the sandbox policy, its structural validation, and the lexical
-- resolution of a request path against a root. Numbers are those of a 64-bit target.
pub mod Validation
pub mod Resolution
use omne_runtime.Base.{
  ◌&&◌, contains, length, ◌==◌, decimal, ◌||◌, text_eq, not, leb, ok_or, if◌then◌else◌, ensure, all,
  String, Bytes, ◌*◌, ℕ, codes, Text, Option, List, Bool, some, none, true, false, [], ◌∷◌, ◌++◌,
  err, ok, ◌>>=◌, ◌>>◌,
}
use omne_runtime.Fs.Error.{
  outside_root, invalid_path, root_not_found, invalid_policy, checked, FsResult,
}
use omne_runtime.Fs.Paths.{is_cur_dir, normalize_path_lexical, normalized_for_boundary}
use omne_runtime.FsPath.{components, push, is_absolute, path_starts_with}
use omne_runtime.Text.{is_empty, as_bytes, trim, is_ascii_alphanumeric}

-- `policy_meta::WriteScope`, of which the code tests the last two.
pub data WriteScope : Type 0 where
  read_only : WriteScope
  workspace_write : WriteScope
  full_access : WriteScope

pub record Root : Type 0 where
  pub id : Text
  pub path : Bytes
  pub write_scope : WriteScope

pub record Permissions : Type 0 where
  pub read : Bool
  pub glob : Bool
  pub grep : Bool
  pub list_dir : Bool
  pub stat : Bool
  pub edit : Bool
  pub patch : Bool
  pub delete : Bool
  pub mkdir : Bool
  pub write : Bool
  pub move_path : Bool
  pub copy_file : Bool

pub record Limits : Type 0 where
  pub max_read_bytes : ℕ
  pub max_patch_bytes : Option ℕ
  pub max_write_bytes : ℕ
  pub max_results : ℕ
  pub max_walk_entries : ℕ
  pub max_walk_files : ℕ
  pub max_walk_ms : Option ℕ
  pub max_line_bytes : ℕ
  pub max_glob_bytes : Option ℕ
  pub preserve_unix_xattrs : Bool

-- `Limits::default`
abbrev pub default_limits : Limits
default_limits = record {
  max_read_bytes = 1024 * 1024;
  max_patch_bytes = none;
  max_write_bytes = 1024 * 1024;
  max_results = 2000;
  max_walk_entries = 500000;
  max_walk_files = 200000;
  max_walk_ms = none;
  max_line_bytes = 4096;
  max_glob_bytes = none;
  preserve_unix_xattrs = true;
}

-- `SecretRules`, and its `Default`
pub record SecretRules : Type 0 where
  pub deny_globs : List Text
  pub redact_regexes : List Text
  pub replacement : Text

unfoldable pub default_secret_rules : SecretRules
default_secret_rules = record {
  deny_globs =
      codes ".git/**"
      ∷ codes "**/.git/**"
      ∷ codes ".env"
      ∷ codes ".env.*"
      ∷ codes "**/.env"
      ∷ codes "**/.env.*"
      ∷ [];
  redact_regexes = [];
  replacement = codes "***REDACTED***";
}

-- `SandboxPolicy`; `stable_sort` and the descriptive metadata decide nothing here.
pub record SandboxPolicy : Type 0 where
  pub roots : List Root
  pub permissions : Permissions
  pub limits : Limits
  pub secrets : SecretRules
  pub skip_globs : List Text
  pub allow_absolute : Bool

abbrev pub root_id_max_len : ℕ
root_id_max_len = 64

abbrev pub max_bytes_hard_cap : ℕ
max_bytes_hard_cap = 256 * 1024 * 1024

abbrev pub max_results_hard_cap : ℕ
max_results_hard_cap = 1000000

abbrev pub max_walk_entries_hard_cap : ℕ
max_walk_entries_hard_cap = 10000000

abbrev pub max_walk_files_hard_cap : ℕ
max_walk_files_hard_cap = 5000000

abbrev pub max_line_bytes_hard_cap : ℕ
max_line_bytes_hard_cap = 1024 * 1024

abbrev pub max_response_bytes_hard_cap : ℕ
max_response_bytes_hard_cap = 64 * 1024 * 1024

unfoldable pub is_root_id_byte : ℕ → Bool
is_root_id_byte byte = is_ascii_alphanumeric byte || byte == b'.' || byte == b'_' || byte == b'-'

unfoldable pub is_valid_root_id : Text → Bool
is_valid_root_id id = all is_root_id_byte (as_bytes id)

-- `validate_u64_limit` and `validate_usize_limit`
unfoldable pub validate_limit : ℕ → String → ℕ → FsResult (Unit {0})
validate_limit value field hard_cap = do
  ensure (not (value == 0)) (invalid_policy (codes field ++ codes " must be > 0"))
  ensure (leb value hard_cap)
      (invalid_policy (codes field ++ codes " must be <= " ++ decimal hard_cap))

abbrev pub validate_optional_limit : Option ℕ → String → ℕ → FsResult (Unit {0})
validate_optional_limit none field hard_cap = ok tt
validate_optional_limit (some value) field hard_cap = validate_limit value field hard_cap

-- `validate_grep_response_budget` and `validate_list_dir_response_budget`, which differ in a message
unfoldable pub validate_response_budget : ℕ → ℕ → String → FsResult (Unit {0})
validate_response_budget max_results max_line_bytes message = do
  worst_case_bytes ←
      ok_or (checked (max_results * max_line_bytes))
        (invalid_policy (codes "limits.max_results * limits.max_line_bytes overflowed usize"))
  ensure (leb worst_case_bytes max_response_bytes_hard_cap)
      (invalid_policy (codes message ++ decimal max_response_bytes_hard_cap ++ codes " bytes"))

abbrev pub effective_glob_budget : ℕ → ℕ → Option ℕ → Option ℕ
effective_glob_budget max_results max_line_bytes (some bytes) = some bytes
effective_glob_budget max_results max_line_bytes none = checked (max_results * max_line_bytes)

unfoldable pub validate_glob_response_budget : ℕ → ℕ → Option ℕ → FsResult (Unit {0})
validate_glob_response_budget max_results max_line_bytes max_glob_bytes = do
  budget ←
      ok_or (effective_glob_budget max_results max_line_bytes max_glob_bytes)
        (invalid_policy (codes "limits.max_results * limits.max_line_bytes overflowed usize"))
  ensure (leb budget max_response_bytes_hard_cap) (
      invalid_policy (
        codes
          "effective glob response budget (limits.max_glob_bytes or limits.max_results * limits.max_line_bytes) must be <= "
        ++ decimal max_response_bytes_hard_cap
        ++ codes " bytes"))

-- The limits' part of `validate_structural`.
unfoldable pub validate_limits : Limits → FsResult (Unit {0})
validate_limits limits = do
  validate_limit limits.max_read_bytes "limits.max_read_bytes" max_bytes_hard_cap
  validate_optional_limit limits.max_patch_bytes "limits.max_patch_bytes" max_bytes_hard_cap
  validate_limit limits.max_write_bytes "limits.max_write_bytes" max_bytes_hard_cap
  validate_limit limits.max_results "limits.max_results" max_results_hard_cap
  validate_limit limits.max_walk_files "limits.max_walk_files" max_walk_files_hard_cap
  validate_limit limits.max_walk_entries "limits.max_walk_entries" max_walk_entries_hard_cap
  ensure (leb limits.max_walk_files limits.max_walk_entries)
      (invalid_policy (codes "limits.max_walk_files must be <= limits.max_walk_entries"))
  validate_limit limits.max_line_bytes "limits.max_line_bytes" max_line_bytes_hard_cap
  validate_optional_limit limits.max_glob_bytes "limits.max_glob_bytes" max_response_bytes_hard_cap
  validate_glob_response_budget limits.max_results limits.max_line_bytes limits.max_glob_bytes
  validate_response_budget limits.max_results limits.max_line_bytes
      "list_dir response budget (limits.max_results * limits.max_line_bytes) must be <= "
  validate_response_budget limits.max_results limits.max_line_bytes
      "limits.max_results * limits.max_line_bytes must be <= "

-- One turn of the loop over the roots; `seen_ids` holds those of the roots before.
unfoldable pub validate_root : List Text → Root → FsResult (Unit {0})
validate_root seen_ids root = do
  let normalized_id = trim root.id
  ensure (not (is_empty normalized_id)) (invalid_policy (codes "root.id is empty"))
  ensure (text_eq normalized_id root.id)
      (invalid_policy (codes "root.id must not contain leading/trailing whitespace"))
  ensure (leb (length (as_bytes normalized_id)) root_id_max_len)
      (invalid_policy (codes "root.id is too long"))
  ensure (is_valid_root_id normalized_id)
      (invalid_policy (codes "root.id contains invalid characters"))
  ensure (not (contains seen_ids normalized_id)) (invalid_policy (codes "duplicate root.id"))
  ensure (not (is_empty root.path)) (invalid_policy (codes "root.path is empty"))
  ensure (is_absolute root.path) (invalid_policy (codes "root.path must be absolute"))

unfoldable pub validate_roots : List Text → List Root → FsResult (Unit {0})
validate_roots seen_ids [] = ok tt
validate_roots seen_ids (root ∷ roots) =
    validate_root seen_ids root >> validate_roots (trim root.id ∷ seen_ids) roots

abbrev pub has_no_root : List Root → Bool
has_no_root [] = true
has_no_root (root ∷ roots) = false

-- `SandboxPolicy::validate` and `validate_structural`
unfoldable pub validate_structural : SandboxPolicy → FsResult (Unit {0})
validate_structural policy = do
  ensure (not (has_no_root policy.roots)) (invalid_policy (codes "roots is empty"))
  validate_limits policy.limits
  validate_roots [] policy.roots

abbrev pub find_root : Text → List Root → Option Root
find_root id [] = none
find_root id (root ∷ roots) =
    let rest = find_root id roots in if text_eq root.id id then some root else rest

-- `SandboxPolicy::root`
unfoldable pub policy_root : SandboxPolicy → Text → FsResult Root
policy_root policy id = ok_or (find_root id policy.roots) (root_not_found id)

unfoldable pub resolve_path_unchecked : SandboxPolicy → Text → Bytes → FsResult Bytes
resolve_path_unchecked policy root_id path = do
  root ← policy_root policy root_id
  ensure (not (is_empty path)) (invalid_path "path is empty")
  ensure (not (is_absolute path && not policy.allow_absolute))
      (invalid_path "absolute request paths are not allowed by policy")
  ok (if is_absolute path then path else push root.path path)

-- A path that is normalised already is returned as it is, also where `.` stood for it.
unfoldable pub resolve_path_checked : SandboxPolicy → Text → Bytes → FsResult Bytes
resolve_path_checked policy root_id path = do
  root ← policy_root policy root_id
  resolved ← resolve_path_unchecked policy root_id path
  let normalized_resolved = normalized_for_boundary resolved
  ensure (path_starts_with normalized_resolved (normalized_for_boundary root.path))
      (outside_root root_id (normalize_path_lexical path))
  ok (if all is_cur_dir (components resolved) then resolved else normalized_resolved)
