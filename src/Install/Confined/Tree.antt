-- ===== src/Install/Confined/Tree.antt =====
-- archive_tree.rs of omne-artifact-install-primitives: an extraction stays below its root.
use omne_runtime.Base.{
  sym, if◌then◌else◌, ◌≡◌, ℕ, Bool, true, Option, none, some, List, [], ◌∷◌, ◌++◌, Bytes, Text,
  Result, ok, err, length,
}
use omne_runtime.Base.Actions.{
  Outcome-weaken, Outcome, ◌>>◌, lift, map_error, Triple, >>=-Triple, map_error-Triple,
}
use mathlib.Core.Path.{subst}
use omne_runtime.Archive.{ArchiveTreeExtractionLimits}
use omne_runtime.Archive.Paths.{IsEntryPath-IsNameIn, IsEntryPath}
use omne_runtime.Archive.Walk.{walk_archive_tree, Archives}
use omne_runtime.Archive.Walk.Rule.{walk_archive_tree-Kept, Kept}
use omne_runtime.Install.{Machine, ArtifactInstallError, System}
use omne_runtime.Install.Collisions.{CaseCollisionTracker}
use omne_runtime.Install.Confined.{>>=-Confines, IsConfinedWith, IsConfined, Confines}
use omne_runtime.Install.Confined.Directories.{
  open_archive_directory_root-Confines, ensure_archive_directory_chain-Confines,
}
use omne_runtime.Install.Confined.HardLinks.{prepare_tar_hard_link-Confines, IsPending}
use omne_runtime.Install.Confined.Links.{
  write_archive_regular_file-Confines, create_tar_symlink-Confines,
}
use omne_runtime.Install.Confined.Pending.{AllPending, resolve_pending-Confines}
use omne_runtime.Install.Directories.{
  open_archive_directory_root, ensure_archive_directory_chain, Install,
}
use omne_runtime.Install.Extract.{
  on_new_installer, map_archive_walk_error, extract_archive_tree_into_root,
}
use omne_runtime.Install.Leaves.{write_archive_regular_file}
use omne_runtime.Install.Links.{prepare_tar_hard_link, create_tar_symlink, PendingTarHardLink}
use omne_runtime.Install.Tree.{
  installer_visitor, resolve_pending_tar_hard_links, finish_install, push_pending, kept_tracker,
  on_machine, visit_symlink, visit_regular_file, visit_hard_link, visit_directory, recorded_case,
  record_case_collision, Method, ArchiveTreeInstaller,
}

AllPending-append :
    (ps : List PendingTarHardLink) (p : PendingTarHardLink)
    → AllPending ps
    → IsPending p
    → AllPending (ps ++ p ∷ [])
AllPending-append [] p h one = (one, tt)
AllPending-append (q ∷ qs) p (first, rest) one = (first, AllPending-append qs p rest one)

-- The calls so far are confined, and so are the links that wait.
abbrev IsTidy : ArchiveTreeInstaller → Type 0
IsTidy installer = IsConfined installer.machine × AllPending installer.pending_hard_links

abbrev KeepsTidy : {A : Type 0} → (A → Type 0) → Method A → Type 0
KeepsTidy {A} Q m = Triple IsTidy IsTidy (λ (a : A) installer. IsTidy installer × Q a) m

on_machine-Outcome :
    {A : Type 0} (Q : A → Type 0) (installer : ArchiveTreeInstaller)
    (x : Result ArtifactInstallError A × Machine)
    → AllPending installer.pending_hard_links
    → Outcome IsConfined (IsConfinedWith Q) x
    → Outcome IsTidy (λ a i. IsTidy i × Q a) (x.0, record installer { machine = x.1 })
on_machine-Outcome Q installer (ok a, machine) pending (safe, q) = ((safe, pending), q)
on_machine-Outcome Q installer (err e, machine) pending safe = (safe, pending)

on_machine-Tidy :
    {A : Type 0} (Q : A → Type 0) (m : Install A) → Confines Q m → KeepsTidy Q (on_machine m)
on_machine-Tidy Q m h installer (safe, pending) =
    on_machine-Outcome Q installer (m installer.machine) pending (h installer.machine safe)

kept_tracker-Tidy :
    (installer : ArchiveTreeInstaller)
    (tracker : Result ArtifactInstallError (Option CaseCollisionTracker))
    → IsTidy installer
    → Outcome IsTidy (λ u i. IsTidy i × Unit) (kept_tracker installer tracker)
kept_tracker-Tidy installer (ok tracker) tidy = (tidy, tt)
kept_tracker-Tidy installer (err e) tidy = tidy

-- The letter case is checked before each visit.
recording :
    {B : Type 0} (Q : B → Type 0) (path : Bytes) (rest : Method B)
    → KeepsTidy Q rest
    → KeepsTidy Q (record_case_collision path >> rest)
unfolding record_case_collision
recording Q path rest h =
    >>=-Triple IsTidy (λ u i. IsTidy i × Unit) (λ b i. IsTidy i × Q b) (record_case_collision path)
      (λ u. rest)
      (λ installer tidy.
        kept_tracker-Tidy installer (recorded_case installer.case_collision_tracker path) tidy)
      (λ u i (tidy, v). h i tidy)

module _ (system : System) where
  visit_directory-Tidy :
      (path : Bytes) → IsEntryPath path → KeepsTidy (λ u. Unit) (visit_directory system path)
  unfolding visit_directory
  visit_directory-Tidy path below =
      recording (λ u. Unit) path _
        (>>=-Triple IsTidy (λ d i. IsTidy i × (d ≡ below.segments)) (λ u i. IsTidy i × Unit)
          (on_machine (ensure_archive_directory_chain system path path true)) (λ d. lift (ok tt))
          (on_machine-Tidy (λ d. d ≡ below.segments)
            (ensure_archive_directory_chain system path path true)
            (subst
              (λ q.
                Confines (λ d. d ≡ below.segments)
                  (ensure_archive_directory_chain system path q true))
              (sym below.made_of)
              (ensure_archive_directory_chain-Confines system path below.segments true
                below.proper)))
          (λ d i (tidy, e). (tidy, tt)))

  visit_regular_file-Tidy :
      (path : Bytes) (content : Result Text Bytes) (unix_mode : Option ℕ)
      → IsEntryPath path
      → KeepsTidy (λ u. Unit) (visit_regular_file system path content unix_mode)
  unfolding visit_regular_file
  visit_regular_file-Tidy path content unix_mode below =
      recording (λ u. Unit) path _
        (on_machine-Tidy (λ u. Unit) (write_archive_regular_file system path path content unix_mode)
          (write_archive_regular_file-Confines system path path (IsEntryPath-IsNameIn path below)
            content unix_mode))

  visit_symlink-Tidy :
      (path target : Bytes)
      → IsEntryPath path
      → KeepsTidy (λ u. Unit) (visit_symlink system path target)
  unfolding visit_symlink
  visit_symlink-Tidy path target below =
      recording (λ u. Unit) path _
        (on_machine-Tidy (λ u. Unit) (create_tar_symlink system path path target)
          (create_tar_symlink-Confines system path path (IsEntryPath-IsNameIn path below) target))

  visit_hard_link-Tidy :
      (path target : Bytes)
      → IsEntryPath path
      → KeepsTidy (λ u. Unit) (visit_hard_link system path target)
  unfolding visit_hard_link
  visit_hard_link-Tidy path target below =
      recording (λ u. Unit) path _
        (>>=-Triple IsTidy (λ p i. IsTidy i × IsPending p) (λ u i. IsTidy i × Unit)
          (on_machine (prepare_tar_hard_link system path path target)) push_pending
          (on_machine-Tidy IsPending (prepare_tar_hard_link system path path target) (
            prepare_tar_hard_link-Confines system path path target
              (IsEntryPath-IsNameIn path below)))
          (λ p i ((safe, pending), one).
            ((safe, AllPending-append i.pending_hard_links p pending one), tt)))

  finish_install-Tidy : KeepsTidy (λ u. Unit) (finish_install system)
  unfolding finish_install
  finish_install-Tidy installer (safe, pending) =
      let links =
        resolve_pending_tar_hard_links system (length installer.pending_hard_links)
          installer.case_collision_tracker installer.pending_hard_links in
      on_machine-Tidy (λ u. Unit) links
        (resolve_pending-Confines system (length installer.pending_hard_links)
          installer.case_collision_tracker installer.pending_hard_links pending)
        installer (safe, pending)

  weakened :
      (m : Method (Unit {0})) → KeepsTidy (λ u. Unit) m → Kept IsTidy (installer_visitor system) m
  weakened m h installer tidy =
      Outcome-weaken IsTidy (λ u. IsTidy) (λ u i. IsTidy i × Unit) (m installer)
        (λ u i (kept, v). kept) (h installer tidy)

  extraction-Tidy :
      (asset_name : Text) (archives : Archives) (limits : ArchiveTreeExtractionLimits)
      → Kept IsTidy (installer_visitor system) (
          map_error
            (walk_archive_tree asset_name archives limits (installer_visitor system))
            map_archive_walk_error
          >> finish_install system)
  extraction-Tidy asset_name archives limits =
      let Tidy = λ (u : Unit {0}). IsTidy in
      let walk = walk_archive_tree asset_name archives limits (installer_visitor system) in
      >>=-Triple IsTidy Tidy Tidy (map_error walk map_archive_walk_error)
        (λ u. finish_install system)
        (map_error-Triple IsTidy Tidy walk map_archive_walk_error (
          walk_archive_tree-Kept IsTidy (installer_visitor system)
            (λ path below. weakened _ (visit_directory-Tidy path below))
            (λ path content unix_mode below.
              weakened _ (visit_regular_file-Tidy path content unix_mode below))
            (λ path target below. weakened _ (visit_symlink-Tidy path target below))
            (λ path target below. weakened _ (visit_hard_link-Tidy path target below)) asset_name
            archives limits))
        (λ u. weakened (finish_install system) finish_install-Tidy)

  new_installer-Outcome :
      (x : Result ArtifactInstallError (Unit {0}) × ArchiveTreeInstaller)
      → Outcome IsTidy (λ u. IsTidy) x
      → Outcome IsConfined (IsConfinedWith (λ u. Unit)) (x.0, x.1.machine)
  new_installer-Outcome (ok u, installer) (safe, pending) = (safe, tt)
  new_installer-Outcome (err e, installer) (safe, pending) = safe

  on_new_installer-Confines :
      (tracker : Option CaseCollisionTracker) (m : Method (Unit {0}))
      → Kept IsTidy (installer_visitor system) m
      → Confines (λ u. Unit) (on_new_installer tracker m)
  on_new_installer-Confines tracker m h machine safe =
      let start : ArchiveTreeInstaller = record {
        machine = machine;
        case_collision_tracker = tracker;
        pending_hard_links = [];
      } in
      new_installer-Outcome (m start) (h start (safe, tt))

  Confined-state :
      (x : Result ArtifactInstallError (Unit {0}) × Machine)
      → Outcome IsConfined (IsConfinedWith (λ u. Unit)) x
      → IsConfined x.1
  Confined-state (ok u, machine) (safe, v) = safe
  Confined-state (err e, machine) safe = safe

  -- Whatever an archive holds and whatever the operating system answers to each call, when the
  -- calls before an extraction are confined then those after it are: every directory is opened and
  -- made, and every file, link, rename, removal and change of mode is done, under a single name
  -- that is neither `.` nor `..` in a directory that was opened by such names from the root, the
  -- root itself being opened again as `.`; and the target of every symbolic link is relative and
  -- climbs nowhere above the root from the directory of the link.
  pub extract_archive_tree_into_root-IsConfined :
      (case_sensitive : Bool) (asset_name : Text) (archives : Archives)
      (limits : ArchiveTreeExtractionLimits) (machine : Machine)
      → IsConfined machine
      → IsConfined
          (extract_archive_tree_into_root system case_sensitive asset_name archives limits
            machine).1
  unfolding extract_archive_tree_into_root
  extract_archive_tree_into_root-IsConfined case_sensitive asset_name archives limits machine safe =
      let tracker : Option CaseCollisionTracker = if case_sensitive then none else some [] in
      let method =
        map_error (walk_archive_tree asset_name archives limits (installer_visitor system))
          map_archive_walk_error
        >> finish_install system in
      let root = open_archive_directory_root system in
      Confined-state
        (extract_archive_tree_into_root system case_sensitive asset_name archives limits machine)
        (>>=-Confines (λ d. d ≡ []) (λ u. Unit) root (λ d. on_new_installer tracker method)
          (open_archive_directory_root-Confines system)
          (λ d e.
            on_new_installer-Confines tracker method (extraction-Tidy asset_name archives limits))
          machine safe)
