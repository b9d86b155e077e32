-- ===== src/Install.antt =====
-- crates/omne-artifact-install-primitives/src/archive_tree.rs: what the installer asks of the operating
-- system, through the crates cap-std and omne-fs-primitives. Each answer is a function of the calls made
-- so far.
pub mod Directories
pub mod Leaves
pub mod Links
pub mod Collisions
pub mod Tree
pub mod Extract
pub mod Rounds
mod Tests
pub mod Confined
use omne_runtime.Base.{
  map_ok, ℕ, ◌+◌, Bool, Option, none, some, List, [], ◌∷◌, ◌++◌, Text, Bytes, String, Result, ok,
  err, text_eq, if◌then◌else◌, codes,
}
use omne_runtime.Base.Actions.{Action}

pub data ErrorKind : Type 0 where
  not_found already_exists invalid_input other_kind : ErrorKind

-- `std::io::Error`
pub record IoError : Type 0 where
  pub kind : ErrorKind
  pub message : Text

-- `ArtifactInstallError::install`: the format string of the message and what is put in it
pub data ArtifactInstallError : Type 0 where
  install : String → List Text → ArtifactInstallError

-- A directory handle, by the names through which it was opened from the root of the extraction
abbrev pub Dir : Type 0
Dir = List Bytes

pub data FileType : Type 0 where
  symlink_type dir_type file_type special_type : FileType

-- Device and inode, and whether it is a regular file
pub record Identity : Type 0 where
  pub is_file : Bool
  pub dev : ℕ
  pub ino : ℕ

pub data Call : Type 0 where
  open_directory create_directory create_file open_file metadata_of remove_file : Dir → Bytes → Call
  write_file : Dir → Bytes → Bytes → Call
  set_mode : Dir → Bytes → ℕ → Call
  make_symlink : (target : Bytes) → Dir → Bytes → Call
  make_hard_link : Dir → Bytes → Dir → Bytes → Call
  rename_leaf : Dir → (from to : Bytes) → Call

-- The answers, the last call being the first of the list. `open_file` answers with what the metadata of
-- the file are, which may fail on their own.
pub record System : Type 0 where
  pub open_directory_component : List Call → Result IoError (Unit {0})
  pub open_regular_file_at : List Call → Result IoError (Result IoError Identity)
  pub symlink_metadata : List Call → Result IoError FileType
  -- The other calls, which give nothing back
  pub perform : List Call → Result IoError (Unit {0})
  -- `std::process::id` and the nanoseconds since the epoch
  pub process_id : ℕ
  pub now : List Call → ℕ

-- The calls made, the last first, and `ARCHIVE_STAGED_LEAF_COUNTER`
pub record Machine : Type 0 where
  pub calls : List Call
  pub staged_leaf_counter : ℕ

abbrev pub logged : Call → Machine → Machine
logged call machine = record machine { calls = call ∷ machine.calls }

module _ (system : System) where
  abbrev pub perform_call : Call → Action Machine IoError (Unit {0})
  perform_call call machine = let after = logged call machine in (system.perform after.calls, after)

  abbrev pub read_file_type : Dir → Bytes → Action Machine IoError FileType
  read_file_type dir name machine =
      let after = logged (metadata_of dir name) machine in
      (system.symlink_metadata after.calls, after)

  abbrev pub open_regular : Dir → Bytes → Action Machine IoError (Result IoError Identity)
  open_regular dir name machine =
      let after = logged (open_file dir name) machine in
      (system.open_regular_file_at after.calls, after)

  -- The handle of a component, `.` being the directory itself
  abbrev pub open_component : Dir → Bytes → Action Machine IoError Dir
  open_component dir name machine =
      let after = logged (open_directory dir name) machine in
      let opened = if text_eq name (b'.' ∷ []) then dir else dir ++ name ∷ [] in
      (map_ok (λ u. opened) (system.open_directory_component after.calls), after)
