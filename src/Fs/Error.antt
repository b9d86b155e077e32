-- ===== src/Fs/Error.antt =====
-- crates/omne-fs/src/error.rs. Of a message the fixed text is kept, or a part of it; most of the values
-- that it prints are left out. Of an I/O error the kind `NotFound` is kept, since the callers branch on
-- it.
use omne_runtime.Base.{
  ◌^◌, ltb, Text, if◌then◌else◌, Bytes, ℕ, String, Result, Option, Bool, some, none,
}

pub record FsIoError : Type 0 where
  pub is_not_found : Bool

pub data Error : Type 0 where
  io : FsIoError → Error
  io_path : (op : String) (path : Bytes) (source : FsIoError) → Error
  committed_but_unsynced : (op : String) (path : Bytes) (source : FsIoError) → Error
  walk_dir : Error
  walk_dir_root : (path : Bytes) (source : FsIoError) → Error
  invalid_policy : Text → Error
  invalid_path : String → Error
  root_not_found : Text → Error
  outside_root : (root_id : Text) (path : Bytes) → Error
  not_permitted : Text → Error
  secret_path_denied : Bytes → Error
  file_too_large : (path : Bytes) (size_bytes max_bytes : ℕ) → Error
  invalid_utf8 : (path : Bytes) → Error
  patch : String → Error
  invalid_regex : (pattern : Text) → Error
  input_too_large : (size_bytes max_bytes : ℕ) → Error

abbrev pub FsResult {ℓ} : Type ℓ → Type ℓ
FsResult A = Result Error A

-- `Error::code`
unfoldable pub error_code : Error → String
error_code (io source) = "io"
error_code (io_path op path source) = "io_path"
error_code (committed_but_unsynced op path source) = "committed_unsynced"
error_code walk_dir = "walkdir"
error_code (walk_dir_root path source) = "walkdir_root"
error_code (invalid_policy message) = "invalid_policy"
error_code (invalid_path message) = "invalid_path"
error_code (root_not_found id) = "root_not_found"
error_code (outside_root root_id path) = "outside_root"
error_code (not_permitted message) = "not_permitted"
error_code (secret_path_denied path) = "secret_path_denied"
error_code (file_too_large path size_bytes max_bytes) = "file_too_large"
error_code (invalid_utf8 path) = "invalid_utf8"
error_code (patch message) = "patch"
error_code (invalid_regex pattern) = "invalid_regex"
error_code (input_too_large size_bytes max_bytes) = "input_too_large"

-- `Error::risk_tag`
unfoldable pub risk_tag : Error → String
risk_tag (outside_root root_id path) = "boundary_violation"
risk_tag (secret_path_denied path) = "boundary_violation"
risk_tag (not_permitted message) = "authorization"
risk_tag (invalid_policy message) = "policy_configuration"
risk_tag (root_not_found id) = "policy_configuration"
risk_tag (invalid_path message) = "input_validation"
risk_tag (invalid_utf8 path) = "input_validation"
risk_tag (invalid_regex pattern) = "input_validation"
risk_tag (patch message) = "input_validation"
risk_tag (input_too_large size_bytes max_bytes) = "input_validation"
risk_tag (file_too_large path size_bytes max_bytes) = "input_validation"
risk_tag (io source) = "runtime_io"
risk_tag (io_path op path source) = "runtime_io"
risk_tag (committed_but_unsynced op path source) = "runtime_io"
risk_tag walk_dir = "runtime_io"
risk_tag (walk_dir_root path source) = "runtime_io"

-- `Error::policy_rule`
unfoldable pub policy_rule : Error → Option String
policy_rule (outside_root root_id path) = some "roots/paths.allow_absolute"
policy_rule (secret_path_denied path) = some "secrets.deny_globs"
policy_rule (invalid_policy message) = some "policy.validate"
policy_rule _ = none

-- `usize::checked_mul` and `checked_add` on a 64-bit target
abbrev pub checked : ℕ → Option ℕ
checked n = if ltb n (2 ^ 64) then some n else none
