-- ===== src/Install/Confined/Pending.antt =====
-- archive_tree.rs of omne-artifact-install-primitives: the rounds over the hard links that wait.
use omne_runtime.Base.{
  ltb, if◌then◌else◌, ◌≡◌, ℕ, zero, suc, Bool, true, false, Option, some, List, [], ◌∷◌, ok, length,
}
use omne_runtime.Base.Actions.{lift}
use omne_runtime.FsPath.Segments.{path_of}
use omne_runtime.Install.{ArtifactInstallError, System}
use omne_runtime.Install.Collisions.{CaseCollisionTracker}
use omne_runtime.Install.Confined.{
  if-Confines, check-Confines, then-Confines, >>=-Confines, Confines,
}
use omne_runtime.Install.Confined.Directories.{ensure_archive_directory_chain-Confines}
use omne_runtime.Install.Confined.HardLinks.{try_create_tar_hard_link-Confines, IsPending}
use omne_runtime.Install.Directories.{ensure_archive_directory_chain}
use omne_runtime.Install.Links.{try_create_tar_hard_link, PendingTarHardLink}
use omne_runtime.Install.Tree.{
  matched, missing_parent, resolve_pending_tar_hard_links, missing_target, link_round,
}

abbrev pub AllPending : List PendingTarHardLink → Type 0
AllPending [] = Unit
AllPending (p ∷ ps) = IsPending p × AllPending ps

module _ (system : System) where
  link_round-Confines :
      (tracker : Option CaseCollisionTracker) (pending : List PendingTarHardLink)
      → AllPending pending
      → Confines AllPending (link_round system tracker pending)
  unfolding link_round
  link_round-Confines tracker [] h = λ machine safe. (safe, tt)
  link_round-Confines tracker (pending ∷ rest) (one, others) =
      check-Confines AllPending (matched tracker pending) _ λ u e.
        >>=-Confines (λ b. Unit) AllPending (try_create_tar_hard_link system pending) _
          (try_create_tar_hard_link-Confines system pending one)
          (λ linked v.
            >>=-Confines AllPending AllPending (link_round system tracker rest)
              (λ remaining. lift (ok (if linked then remaining else pending ∷ remaining)))
              (link_round-Confines tracker rest others)
              (λ remaining kept machine safe. (safe, left_over linked pending remaining one kept)))
    where
      left_over :
          (linked : Bool) (pending : PendingTarHardLink) (remaining : List PendingTarHardLink)
          → IsPending pending
          → AllPending remaining
          → AllPending (if linked then remaining else pending ∷ remaining)
      left_over true pending remaining one kept = kept
      left_over false pending remaining one kept = (one, kept)

  missing_target-Confines :
      (pending : PendingTarHardLink)
      → IsPending pending
      → Confines (λ u. Unit) (missing_target system pending)
  unfolding missing_target
  missing_target-Confines pending p = rw p.target.path_parent (
      then-Confines (λ u. Unit) (missing_parent system pending (some (path_of p.target.dir))) _
        (>>=-Confines (λ d. d ≡ p.target.dir) (λ u. Unit)
          (ensure_archive_directory_chain system pending.entry_path (path_of p.target.dir) false)
          (λ d. lift (ok tt))
          (ensure_archive_directory_chain-Confines system pending.entry_path p.target.dir false
            p.target.dir_proper)
          (λ d e machine safe. (safe, tt)))
        (λ machine safe. safe))

  next_round-Confines :
      (rounds : ℕ) (tracker : Option CaseCollisionTracker) (before : ℕ)
      → ((first : PendingTarHardLink) (others : List PendingTarHardLink)
          → AllPending (first ∷ others)
          → Confines
              (λ u. Unit {0})
              (resolve_pending_tar_hard_links system rounds tracker (first ∷ others)))
      → (remaining : List PendingTarHardLink) → AllPending remaining
      → Confines
          (λ u. Unit {0})
          (elim remaining [
            | [] ↦ lift {E = ArtifactInstallError} (ok tt)
            | first ∷ others ↦
                let again = resolve_pending_tar_hard_links system rounds tracker (first ∷ others) in
                if ltb (length (first ∷ others)) before then again else missing_target system first
          ])
  next_round-Confines rounds tracker before again [] kept = λ machine safe. (safe, tt)
  next_round-Confines rounds tracker before again (first ∷ others) (one, kept) =
      if-Confines (λ u. Unit) (ltb (length (first ∷ others)) before) _ _
        (λ e. again first others (one, kept)) (λ e. missing_target-Confines first one)

  pub resolve_pending-Confines :
      (rounds : ℕ) (tracker : Option CaseCollisionTracker) (pending : List PendingTarHardLink)
      → AllPending pending
      → Confines (λ u. Unit) (resolve_pending_tar_hard_links system rounds tracker pending)
  unfolding resolve_pending_tar_hard_links
  resolve_pending-Confines zero tracker [] h = λ machine safe. (safe, tt)
  resolve_pending-Confines (suc rounds) tracker [] h = λ machine safe. (safe, tt)
  resolve_pending-Confines zero tracker (pending ∷ rest) (one, others) =
      missing_target-Confines pending one
  resolve_pending-Confines (suc rounds) tracker (pending ∷ rest) h =
      >>=-Confines AllPending (λ u. Unit) (link_round system tracker (pending ∷ rest)) _
        (link_round-Confines tracker (pending ∷ rest) h)
        (next_round-Confines rounds tracker (length (pending ∷ rest))
          λ first others kept. resolve_pending-Confines rounds tracker (first ∷ others) kept)
