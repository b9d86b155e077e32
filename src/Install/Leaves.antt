-- ===== src/Install/Leaves.antt =====
-- archive_tree.rs of omne-artifact-install-primitives: an entry is staged under a name of its own and renamed
-- to its place; `PendingArchiveLeaf` removes what is not retained.
use omne_runtime.Base.{
  ◌-◌, ℕ, ◌+◌, ◌/◌, ◌%◌, ◌^◌, zero, suc, Bool, true, false, Option, none, some, [], ◌∷◌, ◌++◌, Text,
  Bytes, String, Result, ok, err, ok_or, map_err, codes, ltb, if◌then◌else◌,
}
use omne_runtime.Base.Actions.{◌>>=◌, ◌>>◌, lift, map_error, attempt}
use omne_runtime.FsPath.{parent, file_name}
use omne_runtime.Install.{
  special_type, file_type, dir_type, symlink_type, write_file, set_mode, rename_leaf, remove_file,
  read_file_type, perform_call, make_symlink, make_hard_link, create_file, Machine, FileType,
  install, IoError, Dir, Call, System, ErrorKind, ArtifactInstallError, already_exists,
}
use omne_runtime.Install.Directories.{
  from_io, is_not_found, ensure_archive_directory_chain, Install,
}
use omne_runtime.Text.{to_string_lossy}

abbrev pub archive_staged_leaf_retry_limit : ℕ
archive_staged_leaf_retry_limit = 128

abbrev pub lower_hex_digit : ℕ → ℕ
lower_hex_digit n = if ltb n 10 then b'0' + n else b'a' + (n - 10)

unfoldable pub lower_hex_on_fuel : ℕ → ℕ → Text
lower_hex_on_fuel zero n = []
lower_hex_on_fuel (suc fuel) n =
    let front = lower_hex_on_fuel fuel (n / 16) in
    if ltb n 16 then lower_hex_digit n ∷ [] else front ++ lower_hex_digit (n % 16) ∷ []

-- What `{n:x}` prints; a number has no more digits than its value and one.
unfoldable pub lower_hex : ℕ → Text
unfolding lower_hex_on_fuel
lower_hex n = lower_hex_on_fuel (suc n) n

unfoldable pub archive_leaf_name : Bytes → Result ArtifactInstallError Bytes
unfolding file_name to_string_lossy
archive_leaf_name path =
    ok_or (file_name path)
      (install "archive entry has no leaf name: {}" (to_string_lossy path ∷ []))

-- The name is a path, whose bytes are those of its ASCII text.
unfoldable pub staged_leaf_name : String → (pid timestamp sequence : ℕ) → Bytes
unfolding codes lower_hex
staged_leaf_name purpose pid timestamp sequence =
    codes ".archive-tree-"
    ++ codes purpose
    ++ codes "-"
    ++ lower_hex pid
    ++ codes "-"
    ++ lower_hex timestamp
    ++ codes "-"
    ++ lower_hex sequence
    ++ codes ".tmp"

abbrev pub is_already_exists : ErrorKind → Bool
is_already_exists already_exists = true
is_already_exists _ = false

module _ (system : System) where
  -- The counter is a `u64`.
  unfoldable pub next_archive_staged_leaf_name : String → Install Bytes
  unfolding staged_leaf_name
  next_archive_staged_leaf_name purpose machine =
      let sequence = machine.staged_leaf_counter in
      let leaf = staged_leaf_name purpose system.process_id (system.now machine.calls) sequence in
      (ok leaf, record machine { staged_leaf_counter = (sequence + 1) % 2 ^ 64 })

  abbrev pub staged_or : Bytes → Bytes → Result IoError (Unit {0}) → Install Bytes → Install Bytes
  staged_or entry_path leaf (ok u) again = lift (ok leaf)
  staged_or entry_path leaf (err e) again =
      if is_already_exists e.kind
      then again
      else lift (
          err (
            install "failed to stage archive entry {} at `{}`: {err}"
              (to_string_lossy entry_path ∷ to_string_lossy leaf ∷ e.message ∷ [])))

  -- The loop of `create_archive_staged_regular_file`, `create_archive_staged_symlink` and
  -- `create_archive_staged_hard_link`, by the call that makes the leaf
  unfoldable pub create_staged_leaf : ℕ → Bytes → String → (Bytes → Call) → Install Bytes
  unfolding next_archive_staged_leaf_name to_string_lossy
  create_staged_leaf zero entry_path purpose make = lift (
      err (
        install "failed to allocate archive staging leaf for {}" (to_string_lossy entry_path ∷ [])))
  create_staged_leaf (suc attempts) entry_path purpose make = do
    staged_leaf ← next_archive_staged_leaf_name purpose
    answer ← attempt (perform_call system (make staged_leaf))
    staged_or entry_path staged_leaf answer (create_staged_leaf attempts entry_path purpose make)

  unfoldable pub create_archive_staged_regular_file : Bytes → Dir → Install Bytes
  unfolding create_staged_leaf
  create_archive_staged_regular_file entry_path directory =
      create_staged_leaf archive_staged_leaf_retry_limit entry_path "file" (create_file directory)

  unfoldable pub create_archive_staged_symlink : Bytes → Dir → Bytes → Install Bytes
  unfolding create_staged_leaf
  create_archive_staged_symlink entry_path directory link_target =
      create_staged_leaf archive_staged_leaf_retry_limit entry_path "symlink"
        (make_symlink link_target directory)

  unfoldable pub create_archive_staged_hard_link : Bytes → Dir → Bytes → Dir → Install Bytes
  unfolding create_staged_leaf
  create_archive_staged_hard_link entry_path source_directory source_leaf destination_directory =
      create_staged_leaf archive_staged_leaf_retry_limit entry_path "hardlink"
        (make_hard_link source_directory source_leaf destination_directory)

  abbrev pub dropped :
      Dir
      → Bytes
      → Result ArtifactInstallError (Unit {0}) × Machine
      → Result ArtifactInstallError (Unit {0}) × Machine
  dropped directory leaf (ok u, machine) = (ok u, machine)
  dropped directory leaf (err e, machine) =
      (err e, (perform_call system (remove_file directory leaf) machine).1)

  -- `PendingArchiveLeaf`: the leaf is removed where the rest fails before it is retained.
  unfoldable pub pending_leaf : Dir → Bytes → Install (Unit {0}) → Install (Unit {0})
  pending_leaf directory leaf rest machine = dropped directory leaf (rest machine)

  unfoldable pub rename_archive_leaf : Bytes → Dir → Bytes → Bytes → Install (Unit {0})
  unfolding to_string_lossy
  rename_archive_leaf entry_path directory staged_leaf output_leaf =
      map_error (perform_call system (rename_leaf directory staged_leaf output_leaf)) λ e.
        install "failed to commit archive entry {} into `{}`: {err}"
          (to_string_lossy entry_path ∷ to_string_lossy output_leaf ∷ e.message ∷ [])

  unfoldable pub replaceable :
      Bytes → Bytes → Result IoError FileType → Result ArtifactInstallError (Unit {0})
  unfolding to_string_lossy
  replaceable entry_path file_name (ok symlink_type) = err (
      install "unsafe archive output `{}` is a symlink for {}"
        (to_string_lossy file_name ∷ to_string_lossy entry_path ∷ []))
  replaceable entry_path file_name (ok dir_type) = err (
      install "unsafe archive output `{}` is a directory for {}"
        (to_string_lossy file_name ∷ to_string_lossy entry_path ∷ []))
  replaceable entry_path file_name (ok file_type) = ok tt
  replaceable entry_path file_name (ok special_type) = err (
      install "unsafe archive output `{}` is not a regular file for {}"
        (to_string_lossy file_name ∷ to_string_lossy entry_path ∷ []))
  replaceable entry_path file_name (err e) = if is_not_found e.kind then ok tt else err (from_io e)

  unfoldable pub ensure_replaceable_archive_output_leaf : Bytes → Dir → Bytes → Install (Unit {0})
  unfolding replaceable
  ensure_replaceable_archive_output_leaf entry_path directory file_name = do
    answer ← attempt (read_file_type system directory file_name)
    lift (replaceable entry_path file_name answer)

  abbrev pub set_permissions : Dir → Bytes → Option ℕ → Install (Unit {0})
  set_permissions directory leaf none = lift (ok tt)
  set_permissions directory leaf (some mode) =
      map_error (perform_call system (set_mode directory leaf mode)) from_io

  -- `io::copy` writes what the reader gives; `flush` of a file does nothing.
  unfoldable pub write_archive_regular_file :
      Bytes → Bytes → Result Text Bytes → Option ℕ → Install (Unit {0})
  unfolding parent ensure_archive_directory_chain archive_leaf_name
      ensure_replaceable_archive_output_leaf create_archive_staged_regular_file pending_leaf
      rename_archive_leaf to_string_lossy
  write_archive_regular_file entry_path output_path reader unix_mode = do
    parent_path ← lift (
        ok_or (parent output_path) (
          install "cannot determine parent directory for archive entry {}"
            (to_string_lossy entry_path ∷ [])))
    parent_dir ← ensure_archive_directory_chain system entry_path parent_path true
    leaf ← lift (archive_leaf_name output_path)
    ensure_replaceable_archive_output_leaf entry_path parent_dir leaf
    staged_leaf ← create_archive_staged_regular_file entry_path parent_dir
    pending_leaf parent_dir staged_leaf (do
      content ← lift (map_err reader (λ message. install "{}" (message ∷ [])))
      map_error (perform_call system (write_file parent_dir staged_leaf content)) from_io
      set_permissions parent_dir staged_leaf unix_mode
      rename_archive_leaf entry_path parent_dir staged_leaf leaf)
