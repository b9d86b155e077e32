-- ===== src/Install/Tree.antt =====
-- archive_tree.rs of omne-artifact-install-primitives: `ArchiveTreeInstaller` is the visitor of a walk;
-- hard links wait for its end, when their targets are there.
use omne_runtime.Base.{
  map_ok, ltb, ℕ, zero, suc, true, false, Option, none, some, List, [], ◌∷◌, ◌++◌, length, Text,
  Bytes, Result, ok, err, if◌then◌else◌,
}
use omne_runtime.Base.Actions.{Action, ◌>>=◌, ◌>>◌, lift}
use omne_runtime.Archive.Walk.{ArchiveTreeVisitor}
use omne_runtime.FsPath.{parent}
use omne_runtime.Install.{install, System, Machine, ArtifactInstallError}
use omne_runtime.Install.Collisions.{
  CaseCollisionTracker, record_path_chain, ensure_exact_case_match,
}
use omne_runtime.Install.Directories.{ensure_archive_directory_chain, Install}
use omne_runtime.Install.Leaves.{write_archive_regular_file}
use omne_runtime.Install.Links.{
  try_create_tar_hard_link, prepare_tar_hard_link, create_tar_symlink, PendingTarHardLink,
}
use omne_runtime.Text.{to_string_lossy}

-- The state of the installer and of the machine that it runs on
pub record ArchiveTreeInstaller : Type 0 where
  pub machine : Machine
  pub case_collision_tracker : Option CaseCollisionTracker
  pub pending_hard_links : List PendingTarHardLink

-- A method on the installer's own state
abbrev pub Method : Type 0 → Type 0
Method = Action ArchiveTreeInstaller ArtifactInstallError

-- An operation on the machine alone
abbrev pub on_machine : {A : Type 0} → Install A → Method A
on_machine m installer =
    let (result, machine) = m installer.machine in (result, record installer { machine = machine })

-- What an `Option` of a tracker becomes
unfoldable pub recorded_case :
    Option CaseCollisionTracker → Bytes → Result ArtifactInstallError (Option CaseCollisionTracker)
unfolding record_path_chain
recorded_case none path = ok none
recorded_case (some tracker) path = map_ok (λ t. some t) (record_path_chain tracker path)

unfoldable pub matched :
    Option CaseCollisionTracker → PendingTarHardLink → Result ArtifactInstallError (Unit {0})
unfolding ensure_exact_case_match
matched none pending = ok tt
matched (some tracker) pending =
    ensure_exact_case_match tracker pending.entry_path pending.resolved_target

abbrev pub kept_tracker :
    ArchiveTreeInstaller
    → Result ArtifactInstallError (Option CaseCollisionTracker)
    → Result ArtifactInstallError (Unit {0}) × ArchiveTreeInstaller
kept_tracker installer (ok tracker) = (ok tt, record installer { case_collision_tracker = tracker })
kept_tracker installer (err e) = (err e, installer)

unfoldable pub record_case_collision : Bytes → Method (Unit {0})
unfolding recorded_case
record_case_collision path installer =
    kept_tracker installer (recorded_case installer.case_collision_tracker path)

abbrev pub push_pending : PendingTarHardLink → Method (Unit {0})
push_pending pending installer =
    (ok tt, record installer { pending_hard_links = installer.pending_hard_links ++ pending ∷ [] })

module _ (system : System) where
  unfoldable pub visit_directory : Bytes → Method (Unit {0})
  unfolding record_case_collision ensure_archive_directory_chain
  visit_directory path = do
    record_case_collision path
    opened ← on_machine (ensure_archive_directory_chain system path path true)
    lift (ok tt)

  unfoldable pub visit_regular_file : Bytes → Result Text Bytes → Option ℕ → Method (Unit {0})
  unfolding record_case_collision write_archive_regular_file
  visit_regular_file path reader unix_mode = do
    record_case_collision path
    on_machine (write_archive_regular_file system path path reader unix_mode)

  unfoldable pub visit_symlink : Bytes → Bytes → Method (Unit {0})
  unfolding record_case_collision create_tar_symlink
  visit_symlink path target = do
    record_case_collision path
    on_machine (create_tar_symlink system path path target)

  unfoldable pub visit_hard_link : Bytes → Bytes → Method (Unit {0})
  unfolding record_case_collision prepare_tar_hard_link
  visit_hard_link path target = do
    record_case_collision path
    pending ← on_machine (prepare_tar_hard_link system path path target)
    push_pending pending

  abbrev pub installer_visitor : ArchiveTreeVisitor ArchiveTreeInstaller ArtifactInstallError
  installer_visitor = record {
    visit_directory = visit_directory;
    visit_regular_file = visit_regular_file;
    visit_symlink = visit_symlink;
    visit_hard_link = visit_hard_link;
  }

  -- One round over the pending links: those that remain
  unfoldable pub link_round :
      Option CaseCollisionTracker → List PendingTarHardLink → Install (List PendingTarHardLink)
  unfolding matched try_create_tar_hard_link
  link_round tracker [] = lift (ok [])
  link_round tracker (pending ∷ rest) = do
    lift (matched tracker pending)
    linked ← try_create_tar_hard_link system pending
    remaining ← link_round tracker rest
    lift (ok (if linked then remaining else pending ∷ remaining))

  abbrev pub missing_parent : PendingTarHardLink → Option Bytes → Install (Unit {0})
  missing_parent pending none = lift (ok tt)
  missing_parent pending (some target_parent) = do
    opened ← ensure_archive_directory_chain system pending.entry_path target_parent false
    lift (ok tt)

  -- No link of the round could be made: the error of the first
  unfoldable pub missing_target : PendingTarHardLink → Install (Unit {0})
  unfolding parent ensure_archive_directory_chain to_string_lossy
  missing_target pending = do
    missing_parent pending (parent pending.resolved_target)
    lift (
        err (
          install "hard link target `{}` does not exist for tar entry {}"
            (to_string_lossy pending.link_target ∷ to_string_lossy pending.entry_path ∷ [])))

  -- The loop, `rounds` being at least the number of pending links: a round that goes on makes one.
  unfoldable pub resolve_pending_tar_hard_links :
      (rounds : ℕ) → Option CaseCollisionTracker → List PendingTarHardLink → Install (Unit {0})
  unfolding link_round missing_target
  resolve_pending_tar_hard_links rounds tracker [] = lift (ok tt)
  resolve_pending_tar_hard_links zero tracker (pending ∷ rest) = missing_target pending
  resolve_pending_tar_hard_links (suc rounds) tracker (pending ∷ rest) = do
    remaining ← link_round tracker (pending ∷ rest)
    elim remaining [
      | [] ↦ lift (ok tt)
      | first ∷ others ↦
          let again = resolve_pending_tar_hard_links rounds tracker (first ∷ others) in
          if ltb (length (first ∷ others)) (length (pending ∷ rest))
          then again
          else missing_target first
    ]

  -- `finish`
  unfoldable pub finish_install : Method (Unit {0})
  unfolding resolve_pending_tar_hard_links
  finish_install installer =
      on_machine
        (resolve_pending_tar_hard_links (length installer.pending_hard_links)
          installer.case_collision_tracker installer.pending_hard_links)
        installer
