-- ===== src/Gateway/Host.antt =====
-- What the gateway asks of the operating system and of crates outside the repository. A `FileSystem`
-- holds the answers during one phase of a request; preparation and spawning may see different ones.
use omne_runtime.Base.{ℕ, Bool, false, ◌&&◌, ◌||◌, Option, List, Text, Bytes, Result, ok, err, ◌==◌}
use omne_runtime.FsPath.{path_equals}
use omne_runtime.Gateway.Isolation.{ExecutionIsolation}
use omne_runtime.Gateway.Error.{IoError, ExecError}

pub record Metadata : Type 0 where
  pub is_file : Bool
  pub is_dir : Bool
  pub is_symlink : Bool
  -- `permissions().mode() & 0o111 != 0`
  pub has_execute_bit : Bool

pub record FileSystem : Type 0 where
  -- `fs::canonicalize`, `fs::metadata`, `fs::symlink_metadata`
  pub canonicalize : Bytes → Result IoError Bytes
  pub metadata : Bytes → Result IoError Metadata
  pub symlink_metadata : Bytes → Result IoError Metadata
  -- `same_file::Handle::from_path`: device and inode, as one number
  pub identity : Bytes → Result IoError ℕ
  -- opening a file and reading all of it
  pub contents : Bytes → Result IoError Bytes
  -- `File::open`: the descriptor's number
  pub open_file : Bytes → Result IoError ℕ
  -- `fcntl` with `F_GETFD`, then with `F_SETFD`
  pub get_fd_flags : ℕ → Result IoError (Unit {0})
  pub set_fd_flags : ℕ → Result IoError (Unit {0})
  -- the names of a directory's entries
  pub read_dir : Bytes → Result IoError (List Bytes)
  pub current_dir : Result IoError Bytes
  -- the variable PATH
  pub path_var : Option Bytes

-- Code outside the repository that is a function of its arguments.
pub record Crates : Type 0 where
  -- `sha2::Sha256` over a whole content
  pub sha256 : Bytes → Bytes
  -- `PolicyMetaV1::new().with_version().with_execution_isolation(i)`, serialised
  pub policy_meta : ExecutionIsolation → Text
  -- the `Display` of an error, which `thiserror` generates
  pub display : ExecError → Text

-- `same_file::is_same_file(a, b).unwrap_or(false)`
unfoldable pub is_same_file : FileSystem → Bytes → Bytes → Bool
is_same_file fs a b = elim (fs.identity a) [
  | err e ↦ false
  | ok i ↦ elim (fs.identity b) [ err e ↦ false | ok j ↦ i == j ]
]

-- `explicit_program_paths_match`
unfoldable pub explicit_program_paths_match : FileSystem → Bytes → Bytes → Bool
explicit_program_paths_match fs actual requested =
    is_same_file fs actual requested || path_equals actual requested

-- `is_spawnable_program_path` on Unix.
unfoldable pub is_spawnable_program_path : FileSystem → Bytes → Bool
is_spawnable_program_path fs path = elim (fs.metadata path) [
  | err e ↦ false
  | ok m ↦ m.is_file && m.has_execute_bit
]
