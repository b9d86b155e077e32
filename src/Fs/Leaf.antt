-- ===== src/Fs/Leaf.antt =====
-- crates/omne-fs/src/ops/path_validation.rs: the last segment of the path of an operation that writes,
-- deletes or makes a directory.
use omne_runtime.Base.{◌||◌, Bool, Bytes, String, ok_or, not, ensure, any, [], ◌∷◌, ◌>>◌}
use omne_runtime.Fs.Error.{invalid_path, FsResult}
use omne_runtime.Fs.Paths.{is_cur_dir}
use omne_runtime.Fs.Redaction.{is_root_relative}
use omne_runtime.FsPath.{components, file_name, path_equals}

pub data LeafOp : Type 0 where
  write_leaf delete_leaf mkdir_leaf : LeafOp

-- `LeafValidationSpec::for_op`, of which the rejection of the root is a message of its own
abbrev pub root_rejection_message : LeafOp → String
root_rejection_message write_leaf = "refusing to write to the root directory"
root_rejection_message delete_leaf = "refusing to delete the root directory"
root_rejection_message mkdir_leaf = "refusing to create the root directory"

-- Comparison of paths is by components: only `.` itself has the components of `.`.
abbrev pub is_dot : Bytes → Bool
is_dot path = path_equals path (b'.' ∷ [])

unfoldable pub validate_requested_path_contract : Bytes → FsResult (Unit {0})
validate_requested_path_contract requested_path = do
  ensure (is_root_relative requested_path)
      (invalid_path "internal contract violation: requested path must stay root-relative")
  ensure (is_dot requested_path || not (any is_cur_dir (components requested_path)))
      (invalid_path "internal contract violation: requested path must be normalized root-relative")

unfoldable pub ensure_non_root_leaf : Bytes → LeafOp → FsResult Bytes
ensure_non_root_leaf requested_path op = do
  validate_requested_path_contract requested_path
  ensure (not (is_dot requested_path)) (invalid_path (root_rejection_message op))
  ok_or (file_name requested_path) (invalid_path "missing final segment")
