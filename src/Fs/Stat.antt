-- ===== src/Fs/Stat.antt =====
-- crates/omne-fs/src/ops/stat.rs. The file system may change while the operation runs: what it answers
-- first and what it answers in `revalidate_path_stability` are two arguments.
use omne_runtime.Base.{
  Bool, ℕ, Text, Option, Bytes, Result, ok_or, not, map_err, ensure, ◌&&◌, and_then, if◌then◌else◌,
  ok, ◌>>=◌, ◌>>◌,
}
use omne_runtime.Fs.Context.{ensure_policy_permission, Context, FileSystem}
use omne_runtime.Fs.Error.{io_path, invalid_path, FsIoError, checked, FsResult, Error}
use omne_runtime.Fs.Redaction.{Patterns}
use omne_runtime.Fs.Resolve.{canonical_path_in_root}
use omne_runtime.FsPath.{path_equals}

-- `fs::Metadata`. A time is the milliseconds since the epoch, where it is known and not before it.
pub record Metadata : Type 0 where
  pub is_symlink : Bool
  pub is_file : Bool
  pub is_dir : Bool
  pub len : ℕ
  pub modified : Option ℕ
  pub accessed : Option ℕ
  pub created : Option ℕ
  pub readonly : Bool

-- What the file system answers at a time; `FileIdentity::from_path` is an identity.
pub record Entries (Identity : Type 0) : Type 0 where
  pub files : FileSystem
  pub symlink_metadata : Bytes → Result FsIoError Metadata
  pub identity_from_path : Bytes → Option Identity

pub record StatRequest : Type 0 where
  pub root_id : Text
  pub path : Bytes

pub data StatKind : Type 0 where
  file_kind dir_kind other_kind : StatKind

pub record StatResponse : Type 0 where
  pub path : Bytes
  pub requested_path : Bytes
  pub kind : StatKind
  pub size_bytes : ℕ
  pub modified_ms : Option ℕ
  pub accessed_ms : Option ℕ
  pub created_ms : Option ℕ
  pub readonly : Bool

abbrev pub metadata_time_to_millis : Option ℕ → Option ℕ
metadata_time_to_millis value = and_then value λ millis. checked millis

abbrev pub kind_of : Metadata → StatKind
kind_of meta = if meta.is_file then file_kind else (if meta.is_dir then dir_kind else other_kind)

abbrev pub changed_during_operation : Error
changed_during_operation = invalid_path "path changed during operation"

abbrev pub no_identity : Error
no_identity = invalid_path "cannot verify identity for path on this platform"

-- `fs::symlink_metadata` of the target, which must not have become a link
unfoldable pub target_metadata :
    {Identity : Type 0} → Entries Identity → Bytes → Bytes → FsResult Metadata
target_metadata entries path requested_path = do
  meta ← map_err (entries.symlink_metadata path) (λ e. io_path "symlink_metadata" requested_path e)
  ensure (not meta.is_symlink) changed_during_operation
  ok meta

module _ (patterns : Patterns) (ctx : Context patterns) (Identity : Type 0)
    (same_identity : Identity → Identity → Bool) where
  unfoldable pub revalidate_path_stability :
      (now : Entries Identity) (request : StatRequest)
      (canonical_path relative_path requested_path : Bytes) (expected_identity : Identity)
      → FsResult Metadata
  revalidate_path_stability now request canonical_path relative_path requested_path
        expected_identity =
      do
        (canonical, relative, requested) ←
            canonical_path_in_root patterns now.files ctx request.root_id request.path
        ensure
            (path_equals canonical canonical_path
              && path_equals relative relative_path
              && path_equals requested requested_path)
            changed_during_operation
        meta ← target_metadata now canonical_path requested_path
        actual ← ok_or (now.identity_from_path canonical_path) no_identity
        ensure (same_identity actual expected_identity) changed_during_operation
        ok meta

  -- The operation, with what the file system answers at first and at the revalidation
  unfoldable pub stat : (first now : Entries Identity) → StatRequest → FsResult StatResponse
  stat first now request = do
    ensure_policy_permission ctx.policy.permissions.stat "stat"
    (path, relative, requested_path) ←
        canonical_path_in_root patterns first.files ctx request.root_id request.path
    meta ← target_metadata first path requested_path
    expected_identity ← ok_or (first.identity_from_path path) no_identity
    stable ← revalidate_path_stability now request path relative requested_path expected_identity
    ok (record {
      path = relative;
      requested_path = requested_path;
      kind = kind_of stable;
      size_bytes = if stable.is_file then stable.len else 0;
      modified_ms = metadata_time_to_millis stable.modified;
      accessed_ms = metadata_time_to_millis stable.accessed;
      created_ms = metadata_time_to_millis stable.created;
      readonly = stable.readonly;
    })
