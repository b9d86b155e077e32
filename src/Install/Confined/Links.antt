-- ===== src/Install/Confined/Links.antt =====
-- archive_tree.rs of omne-artifact-install-primitives: files and links are made in the directory of their
-- entry, and no link leads above the root.
use omne_runtime.Base.{
  refl, ◌∙◌, sym, ap, length-append, all-append, &&-eq_true, arith, ◌≡◌, ℕ, Bool, true, Option,
  none, some, List, [], ◌∷◌, ◌++◌, Bytes, Text, Result, ok, all, length, ok_or, map_err,
}
use omne_runtime.Base.Actions.{◌>>=◌, ◌>>◌, lift, map_error}
use mathlib.Core.Path.{subst}
use omne_runtime.Archive.Paths.{last_split, IsNameIn}
use omne_runtime.FsPath.{parent, Component, root_dir, cur_dir, parent_dir, normal, components}
use omne_runtime.FsPath.Segments.{components-is_proper, is_proper, is_segment, path_of}
use omne_runtime.FsPath.Segments.Parents.{parent-path_of, push-path_of}
use omne_runtime.Install.{
  make_symlink, write_file, create_file, install, set_mode, perform_call, Dir, ArtifactInstallError,
  System,
}
use omne_runtime.Install.Confined.{
  then-Confines, >>=-Confines, perform_call-Confines, map_error-Confines, check-Confines, is_below,
  Confines, stays_below, is_confined,
}
use omne_runtime.Install.Confined.Directories.{ensure_archive_directory_chain-Confines}
use omne_runtime.Install.Confined.Leaves.{
  pending_leaf-Confines, ensure_replaceable_archive_output_leaf-Confines,
  create_staged_leaf-Confines, rename_archive_leaf-Confines,
}
use omne_runtime.Install.Directories.{ensure_archive_directory_chain, Install, from_io}
use omne_runtime.Install.Leaves.{
  create_archive_staged_symlink, ensure_replaceable_archive_output_leaf, rename_archive_leaf,
  create_archive_staged_regular_file, archive_leaf_name, set_permissions,
  write_archive_regular_file,
}
use omne_runtime.Install.Links.{
  create_tar_symlink, unsafe_target, validate_archive_link_target, resolve_link,
}

-- A target that `validate_archive_link_target` lets through does not lead above the root.

resolve_link-parent :
    (refused : ArtifactInstallError) (dir : List Bytes) (last : Bytes) (cs : List Component)
    → all is_segment dir ≡ true
    → is_segment last ≡ true
    → resolve_link refused (path_of (dir ++ last ∷ [])) (parent_dir ∷ cs)
      ≡ resolve_link refused (path_of dir) cs
unfolding resolve_link
resolve_link-parent refused dir last cs h one =
    rw (resolve_link, parent-path_of dir last h one) refl

resolve_link-stays_below :
    (refused : ArtifactInstallError) (dir : List Bytes) (cs : List Component) {resolved : Bytes}
    → all is_segment dir ≡ true
    → all is_proper cs ≡ true
    → resolve_link refused (path_of dir) cs ≡ ok resolved
    → stays_below (length dir) cs ≡ true
unfolding resolve_link stays_below
resolve_link-stays_below refused dir [] h proper e = refl
resolve_link-stays_below refused dir (normal name ∷ cs) h proper e =
    let (one, rest) = &&-eq_true (is_segment name) (all is_proper cs) proper in
    let whole = all-append is_segment dir (name ∷ []) in
    let longer : all is_segment (dir ++ name ∷ []) ≡ true = ground arith in
    let deeper = length-append dir (name ∷ []) in
    let pushed = push-path_of dir name h one in
    let rec =
      resolve_link-stays_below refused (dir ++ name ∷ []) cs longer rest
        (ap (λ r. resolve_link refused r cs) (sym pushed) ∙ e) in
    ap (λ n. stays_below n cs) (sym (deeper ∙ omega arith)) ∙ rec
resolve_link-stays_below refused dir (cur_dir ∷ cs) h proper e =
    resolve_link-stays_below refused dir cs h proper e
resolve_link-stays_below refused [] (parent_dir ∷ cs) h proper e = cc
resolve_link-stays_below refused (name ∷ names) (parent_dir ∷ cs) h proper e =
    let (front, last, split) = last_split name names in
    let whole = ap (all is_segment) (sym split) ∙ h in
    let parts = all-append is_segment front (last ∷ []) in
    let kept : all is_segment front ≡ true = ground arith in
    let one : is_segment last ≡ true = ground arith in
    let above = resolve_link-parent refused front last cs kept one in
    let stepped =
      sym above ∙ ap (λ d. resolve_link refused (path_of d) (parent_dir ∷ cs)) (sym split) ∙ e in
    let rec = resolve_link-stays_below refused front cs kept proper stepped in
    let shorter : length names ≡ length front =
      omega (arith, ap length split, length-append front (last ∷ [])) in
    ap (λ n. stays_below n cs) shorter ∙ rec
resolve_link-stays_below refused dir (root_dir ∷ cs) h proper e = cc

validate_archive_link_target-stays_below :
    (entry_path : Bytes) (dir : List Bytes) (target : Bytes) {resolved : Bytes}
    → all is_segment dir ≡ true
    → validate_archive_link_target entry_path (path_of dir) target ≡ ok resolved
    → stays_below (length dir) (components target) ≡ true
unfolding validate_archive_link_target
validate_archive_link_target-stays_below entry_path dir target {resolved} h e =
    let refused = unsafe_target target entry_path in
    let looped : resolve_link refused (path_of dir) (components target) ≡ ok resolved =
      ground arith in
    resolve_link-stays_below refused dir (components target) h (components-is_proper target) looped

module _ (system : System) where
  set_permissions-Confines :
      (dir : Dir) (leaf : Bytes) (unix_mode : Option ℕ)
      → is_below dir leaf ≡ true
      → Confines (λ u. Unit) (set_permissions system dir leaf unix_mode)
  unfolding is_confined
  set_permissions-Confines dir leaf none below = λ machine safe. (safe, tt)
  set_permissions-Confines dir leaf (some mode) below =
      map_error-Confines (λ u. Unit) (perform_call system (set_mode dir leaf mode)) from_io
        (perform_call-Confines system (set_mode dir leaf mode) below)

  module _ (entry_path path : Bytes) (n : IsNameIn path) where
    below : is_below n.dir n.name ≡ true
    below = rw (n.dir_proper, n.name_proper) refl

    beside : (leaf : Bytes) → is_segment leaf ≡ true → is_below n.dir leaf ≡ true
    beside leaf named = rw (n.dir_proper, named) refl

    -- The first steps: the parent of the entry is opened.
    pub in_parent :
        {B : Type 0} (R : B → Type 0) (create_missing : Bool) (missing : ArtifactInstallError)
        (rest : Bytes → Dir → Install B)
        → Confines R (rest (path_of n.dir) n.dir)
        → Confines R (
            lift (ok_or (parent path) missing) >>= λ parent_path.
            ensure_archive_directory_chain system entry_path parent_path create_missing
            >>= rest parent_path)
    in_parent R create_missing missing rest h = rw n.path_parent (
        >>=-Confines (λ d. d ≡ n.dir) R
          (ensure_archive_directory_chain system entry_path (path_of n.dir) create_missing)
          (rest (path_of n.dir))
          (ensure_archive_directory_chain-Confines system entry_path n.dir create_missing
            n.dir_proper)
          (λ d e. subst (λ dir. Confines R (rest (path_of n.dir) dir)) (sym e) h))

    -- Then its leaf, which must be replaceable.
    pub at_leaf :
        {B : Type 0} (R : B → Type 0) (rest : Bytes → Install B)
        → Confines R (rest n.name)
        → Confines R (
            lift (archive_leaf_name path) >>= λ leaf.
            ensure_replaceable_archive_output_leaf system entry_path n.dir leaf >> rest leaf)
    unfolding archive_leaf_name
    at_leaf R rest h =
        rw (archive_leaf_name, n.path_name)
          (then-Confines R (ensure_replaceable_archive_output_leaf system entry_path n.dir n.name)
            (rest n.name)
            (ensure_replaceable_archive_output_leaf-Confines system entry_path n.dir n.name below)
            h)

    pub renaming :
        (staged : Bytes)
        → is_segment staged ≡ true
        → Confines (λ u. Unit) (rename_archive_leaf system entry_path n.dir staged n.name)
    renaming staged named =
        rename_archive_leaf-Confines system entry_path n.dir staged n.name (beside staged named)
          below

    pub write_archive_regular_file-Confines :
        (reader : Result Text Bytes) (unix_mode : Option ℕ)
        → Confines (λ u. Unit) (write_archive_regular_file system entry_path path reader unix_mode)
    unfolding write_archive_regular_file create_archive_staged_regular_file is_confined
    write_archive_regular_file-Confines reader unix_mode =
        let read = map_err reader (λ message. install "{}" (message ∷ [])) in
        in_parent (λ u. Unit) true _ _
          (at_leaf (λ u. Unit) _
            (>>=-Confines (λ leaf. is_segment leaf ≡ true) (λ u. Unit)
              (create_archive_staged_regular_file system entry_path n.dir) _
              (create_staged_leaf-Confines system 128 entry_path "file" (create_file n.dir) refl
                beside)
              (λ staged named. pending_leaf-Confines system n.dir staged _ (beside staged named) (
                check-Confines (λ u. Unit) read _
                  λ content e.
                    then-Confines (λ u. Unit)
                      (map_error (perform_call system (write_file n.dir staged content)) from_io) _
                      (map_error-Confines (λ u. Unit)
                        (perform_call system (write_file n.dir staged content)) from_io
                        (perform_call-Confines system (write_file n.dir staged content)
                          (beside staged named)))
                      (then-Confines (λ u. Unit) (set_permissions system n.dir staged unix_mode) _
                        (set_permissions-Confines n.dir staged unix_mode (beside staged named))
                        (renaming staged named))))))

    pub create_tar_symlink-Confines :
        (target : Bytes) → Confines (λ u. Unit) (create_tar_symlink system entry_path path target)
    unfolding create_tar_symlink create_archive_staged_symlink is_confined
    create_tar_symlink-Confines target =
        in_parent (λ u. Unit) true _ _
          (check-Confines (λ u. Unit)
            (validate_archive_link_target entry_path (path_of n.dir) target) _
            λ resolved e.
              at_leaf (λ u. Unit) _
                (>>=-Confines (λ leaf. is_segment leaf ≡ true) (λ u. Unit)
                  (create_archive_staged_symlink system entry_path n.dir target) _
                  (create_staged_leaf-Confines system 128 entry_path "symlink"
                    (make_symlink target n.dir) refl
                    (λ leaf named. rw (beside leaf named) (
                      validate_archive_link_target-stays_below entry_path n.dir target n.dir_proper
                        e)))
                  (λ staged named.
                    pending_leaf-Confines system n.dir staged _ (beside staged named)
                      (renaming staged named))))
