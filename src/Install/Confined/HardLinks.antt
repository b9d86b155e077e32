-- ===== src/Install/Confined/HardLinks.antt =====
-- archive_tree.rs of omne-artifact-install-primitives: hard links wait with their places below the root,
-- and are made there.
use omne_runtime.Base.{
  refl, sym, arith, ◌≡◌, Bool, true, false, Option, none, some, Bytes, Result, ok, map_err,
}
use omne_runtime.Base.Actions.{◌>>=◌, lift, attempt, map_error}
use mathlib.Core.Path.{subst}
use omne_runtime.Archive.Paths.{sanitize_path-IsEntryPath, IsEntryPath-IsNameIn, IsNameIn}
use omne_runtime.FsPath.Segments.{is_segment, path_of}
use omne_runtime.Install.{open_regular, make_hard_link, Identity, IoError, Dir, System}
use omne_runtime.Install.Confined.{
  Holds-any, lift-Confines, open_regular-Confines, match-Confines, then-Confines, >>=-Confines,
  map_error-Confines, check-Confines, is_below, Confines, is_confined,
}
use omne_runtime.Install.Confined.Directories.{try_open_archive_directory_chain-Confines, IsOpened}
use omne_runtime.Install.Confined.Leaves.{pending_leaf-Confines, create_staged_leaf-Confines}
use omne_runtime.Install.Confined.Links.{renaming, in_parent, at_leaf}
use omne_runtime.Install.Directories.{try_open_archive_directory_chain, Install, from_io}
use omne_runtime.Install.Leaves.{create_archive_staged_hard_link, archive_leaf_name}
use omne_runtime.Install.Links.{
  staged_open_error, opened_source, if_there, validate_staged_hard_link_matches_source,
  try_create_tar_hard_link, sanitize_tree_path, link_to_source, validate_archive_hard_link_target,
  prepare_tar_hard_link, PendingTarHardLink,
}

-- A hard link that waits has its places below the root.
pub record IsPending (pending : PendingTarHardLink) : Type 0 where
  pub output : IsNameIn pending.output_path
  pub target : IsNameIn pending.resolved_target

sanitize_tree_path-IsNameIn :
    (path : Bytes) {sanitized : Bytes} → sanitize_tree_path path ≡ ok sanitized → IsNameIn sanitized
unfolding sanitize_tree_path
sanitize_tree_path-IsNameIn path {sanitized} e =
    IsEntryPath-IsNameIn sanitized (sanitize_path-IsEntryPath _ _ path e)

validate_archive_hard_link_target-IsNameIn :
    (entry_path target : Bytes) {resolved : Bytes}
    → validate_archive_hard_link_target entry_path target ≡ ok resolved
    → IsNameIn resolved
unfolding validate_archive_hard_link_target
validate_archive_hard_link_target-IsNameIn entry_path target {resolved} e =
    let sanitized : sanitize_tree_path target ≡ ok resolved = ground arith in
    sanitize_tree_path-IsNameIn target sanitized

module _ (system : System) where
  pub prepare_tar_hard_link-Confines :
      (entry_path path target : Bytes)
      → IsNameIn path
      → Confines IsPending (prepare_tar_hard_link system entry_path path target)
  unfolding prepare_tar_hard_link
  prepare_tar_hard_link-Confines entry_path path target n =
      in_parent system entry_path path n IsPending true _ _ (
        check-Confines IsPending (validate_archive_hard_link_target entry_path target) _
          λ resolved e machine safe. (
            safe,
            record {
              output = n;
              target = validate_archive_hard_link_target-IsNameIn entry_path target e;
            },
          ))

  module _ (pending : PendingTarHardLink) (p : IsPending pending) where
    source_below : is_below p.target.dir p.target.name ≡ true
    source_below = rw (p.target.dir_proper, p.target.name_proper) refl

    output_beside : (leaf : Bytes) → is_segment leaf ≡ true → is_below p.output.dir leaf ≡ true
    output_beside leaf named = rw (p.output.dir_proper, named) refl

    validate_staged-Confines :
        (dir : Dir) (staged : Bytes) (source : Identity)
        → is_below dir staged ≡ true
        → Confines
            (λ u. Unit)
            (validate_staged_hard_link_matches_source system pending dir staged source)
    unfolding validate_staged_hard_link_matches_source
    validate_staged-Confines dir staged source h =
        >>=-Confines (λ f. Unit) (λ u. Unit)
          (map_error (open_regular system dir staged) (staged_open_error pending)) _
          (map_error-Confines (λ f. Unit) (open_regular system dir staged)
            (staged_open_error pending) (open_regular-Confines system dir staged h))
          (λ file u.
            check-Confines (λ v. Unit) (map_err file from_io) _
              λ identity e. lift-Confines (λ v. Unit) _ (Holds-any _))

    link_to_source-Confines :
        (file : Result IoError Identity)
        → Confines
            (λ b. Unit)
            (link_to_source system pending p.output.dir p.target.dir p.target.name file)
    unfolding link_to_source create_archive_staged_hard_link is_confined
    link_to_source-Confines file =
        let Any = λ (b : Bool). Unit {0} in
        check-Confines Any (map_err file from_io) _ λ source e.
          at_leaf system pending.entry_path pending.output_path p.output Any _ (
            >>=-Confines (λ leaf. is_segment leaf ≡ true) Any
              (create_archive_staged_hard_link system pending.entry_path p.target.dir p.target.name
                p.output.dir)
              _
              (create_staged_leaf-Confines system 128 pending.entry_path "hardlink"
                (make_hard_link p.target.dir p.target.name p.output.dir) refl
                (λ leaf named. rw (source_below, output_beside leaf named) refl))
              (λ staged named.
                then-Confines Any _ (lift (ok true))
                  (pending_leaf-Confines system p.output.dir staged _ (output_beside staged named) (
                    then-Confines (λ u. Unit)
                      (validate_staged_hard_link_matches_source system pending p.output.dir staged
                        source)
                      _
                      (validate_staged-Confines p.output.dir staged source
                        (output_beside staged named))
                      (renaming system pending.entry_path pending.output_path p.output staged
                        named)))
                  (λ machine safe. (safe, tt))))

    abbrev found_or_not : Dir → Bytes → Option (Result IoError Identity) → Install Bool
    found_or_not dir leaf file =
        if_there system file (link_to_source system pending p.output.dir dir leaf)

    found_or_not-Confines :
        (file : Option (Result IoError Identity))
        → Confines (λ b. Unit) (found_or_not p.target.dir p.target.name file)
    found_or_not-Confines none = λ machine safe. (safe, tt)
    found_or_not-Confines (some file) = link_to_source-Confines file

    abbrev with_target : Dir → Install Bool
    with_target dir = do
      leaf ← lift (archive_leaf_name pending.resolved_target)
      answer ← attempt (open_regular system dir leaf)
      file ← lift (opened_source pending answer)
      found_or_not dir leaf file

    with_target-Confines : Confines (λ b. Unit) (with_target p.target.dir)
    unfolding archive_leaf_name is_confined
    with_target-Confines =
        let Any = λ (b : Bool). Unit {0} in
        rw (archive_leaf_name, p.target.path_name)
          (match-Confines (λ f. Unit) Any (open_regular system p.target.dir p.target.name)
            (λ answer.
              lift (opened_source pending answer) >>= found_or_not p.target.dir p.target.name)
            (open_regular-Confines system p.target.dir p.target.name source_below)
            (λ answer u.
              check-Confines Any (opened_source pending answer)
                (found_or_not p.target.dir p.target.name) (λ file e. found_or_not-Confines file)))

    with_target_parent-Confines :
        (opened : Option Dir)
        → IsOpened p.target.dir opened
        → Confines (λ b. Unit) (if_there system opened with_target)
    with_target_parent-Confines none e = λ machine safe. (safe, tt)
    with_target_parent-Confines (some dir) e =
        subst (λ d. Confines (λ b. Unit) (with_target d)) (sym e) with_target-Confines

    pub try_create_tar_hard_link-Confines :
        Confines (λ b. Unit) (try_create_tar_hard_link system pending)
    unfolding try_create_tar_hard_link
    try_create_tar_hard_link-Confines =
        let Any = λ (b : Bool). Unit {0} in
        in_parent system pending.entry_path pending.output_path p.output Any false _ _ (
          rw p.target.path_parent (
            >>=-Confines (IsOpened p.target.dir) Any
              (try_open_archive_directory_chain system pending.entry_path (path_of p.target.dir)
                false)
              (λ opened. if_there system opened with_target)
              (try_open_archive_directory_chain-Confines system pending.entry_path p.target.dir
                false p.target.dir_proper)
              with_target_parent-Confines))
