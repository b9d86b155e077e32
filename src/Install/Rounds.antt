-- ===== src/Install/Rounds.antt =====
-- archive_tree.rs of omne-artifact-install-primitives: the loop over the hard links that wait ends. As many
-- rounds as links are enough: more rounds change nothing.
use omne_runtime.Base.{
  inr, ltb→lt, refl, inl, if◌then◌else◌, Bool-cases, ◌<◌, arith, ◌≡◌, ℕ, zero, suc, ◌≤◌, Option,
  List, [], ◌∷◌, length, ok, ltb,
}
use omne_runtime.Base.Actions.{>>=-cong, lift}
use omne_runtime.Install.{Machine, System}
use omne_runtime.Install.Collisions.{CaseCollisionTracker}
use omne_runtime.Install.Directories.{Install}
use omne_runtime.Install.Links.{PendingTarHardLink}
use omne_runtime.Install.Tree.{missing_target, link_round, resolve_pending_tar_hard_links}

module _ (system : System) where
  -- What follows a round that began with `before` links
  abbrev after_round :
      ℕ → Option CaseCollisionTracker → ℕ → List PendingTarHardLink → Install (Unit {0})
  after_round rounds tracker before remaining = elim remaining [
    | [] ↦ lift (ok tt)
    | first ∷ others ↦
        let again = resolve_pending_tar_hard_links system rounds tracker (first ∷ others) in
        if ltb (length (first ∷ others)) before then again else missing_target system first
  ]

  after_round_stable :
      (rounds more : ℕ) (tracker : Option CaseCollisionTracker) (before : ℕ)
      (remaining : List PendingTarHardLink) (machine : Machine)
      → ((first : PendingTarHardLink) (others : List PendingTarHardLink)
          → length (first ∷ others) < before
          → resolve_pending_tar_hard_links system rounds tracker (first ∷ others) machine
            ≡ resolve_pending_tar_hard_links system more tracker (first ∷ others) machine)
      → after_round rounds tracker before remaining machine
        ≡ after_round more tracker before remaining machine
  after_round_stable rounds more tracker before [] machine h = refl
  after_round_stable rounds more tracker before (first ∷ others) machine h =
      elim (Bool-cases (ltb (length (first ∷ others)) before)) [
        | inl smaller ↦ rw (after_round, smaller) (h first others (ltb→lt _ before smaller))
        | inr same_size ↦ rw (after_round, same_size) refl
      ]

  -- The loop over the hard links that wait answers and leaves the machine the same with every
  -- number of rounds that is at least the number of links.
  pub resolve_pending_tar_hard_links_stable :
      (rounds more : ℕ) (tracker : Option CaseCollisionTracker) (pending : List PendingTarHardLink)
      (machine : Machine)
      → length pending ≤ rounds
      → length pending ≤ more
      → resolve_pending_tar_hard_links system rounds tracker pending machine
        ≡ resolve_pending_tar_hard_links system more tracker pending machine
  unfolding resolve_pending_tar_hard_links
  resolve_pending_tar_hard_links_stable rounds more tracker [] machine h k = refl
  resolve_pending_tar_hard_links_stable zero more tracker (p ∷ ps) machine h k =
      absurd (omega (arith, h))
  resolve_pending_tar_hard_links_stable (suc rounds) zero tracker (p ∷ ps) machine h k =
      absurd (omega (arith, k))
  resolve_pending_tar_hard_links_stable (suc rounds) (suc more) tracker (p ∷ ps) machine h k =
      >>=-cong (link_round system tracker (p ∷ ps)) (after_round rounds tracker (length (p ∷ ps)))
        (after_round more tracker (length (p ∷ ps)))
        (λ remaining after.
          after_round_stable rounds more tracker (length (p ∷ ps)) remaining after
            (λ first others smaller.
              resolve_pending_tar_hard_links_stable rounds more tracker (first ∷ others) after
                (omega (arith, h, smaller)) (omega (arith, k, smaller))))
        machine
