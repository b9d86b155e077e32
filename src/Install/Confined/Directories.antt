-- ===== src/Install/Confined/Directories.antt =====
-- archive_tree.rs of omne-artifact-install-primitives: directories are opened below the root, one component
-- at a time.
use omne_runtime.Base.{
  ◌∙◌, ok_or, refl, all-append, &&-eq_true, sym, if◌then◌else◌, arith, ◌≡◌, Bool, true, false,
  Option, none, some, List, [], ◌∷◌, ◌++◌, Bytes, Result, ok, err, all, map,
}
use omne_runtime.Base.Actions.{◌>>=◌, lift, attempt}
use mathlib.Core.List.{append-nil, append_assoc}
use mathlib.Core.Path.{subst}
use omne_runtime.FsPath.{normal, components}
use omne_runtime.FsPath.Segments.{behind, is_segment, path_of, components-path_of}
use omne_runtime.Install.{
  install, ArtifactInstallError, read_file_type, perform_call, open_component, create_directory,
  IoError, System, Dir,
}
use omne_runtime.Install.Confined.{
  lift-Confines, if-Confines, open_root-Confines, perform_call-Confines, map_error-Confines,
  match-Confines, is_confined, read_file_type-Confines, open_component-Confines, >>=-Confines,
  Holds, Confines, is_below,
}
use omne_runtime.Install.Directories.{
  unsafe_parent, try_open_archive_directory_chain, ensure_archive_directory_chain,
  mapped_component_error, is_not_found, from_io, open_components, open_archive_directory_root,
  and_open, opened_or, created_or, open_child, create_child, component_error, Install,
}
use omne_runtime.Text.{to_string_lossy, is_empty}

abbrev pub IsOpened : Dir → Option Dir → Type 0
IsOpened dir none = Unit
IsOpened dir (some opened) = opened ≡ dir

ok_or-Holds :
    (dir : Dir) (opened : Option Dir) (missing : ArtifactInstallError)
    → IsOpened dir opened
    → Holds (λ d. d ≡ dir) (ok_or opened missing)
ok_or-Holds dir none missing e = tt
ok_or-Holds dir (some d) missing e = e

is_empty-segment : (s r : Bytes) → is_segment s ≡ true → is_empty (s ++ r) ≡ false
unfolding is_segment
is_empty-segment [] r h = absurd (ground arith)
is_empty-segment (c ∷ s) r h = refl

is_empty-path_of :
    (names : List Bytes)
    → all is_segment names ≡ true
    → is_empty (path_of names) ≡ true
    → names ≡ []
is_empty-path_of [] h e = refl
is_empty-path_of (name ∷ names) h e =
    let (one, rest) = &&-eq_true (is_segment name) (all is_segment names) h in
    absurd (cc (e, is_empty-segment name (behind names) one))

module _ (system : System) where
  component_error-Confines :
      (Q : Option Dir → Type 0) (dir : Dir) (name : Bytes) (e : IoError)
      → is_below dir name ≡ true
      → Confines Q (component_error system dir name e)
  component_error-Confines Q dir name e h =
      match-Confines (λ u. Unit) Q (read_file_type system dir name)
        (λ answer. lift (err (from_io (mapped_component_error name e answer))))
        (read_file_type-Confines system dir name h) (λ answer u machine safe. safe)

  opened_or-Confines :
      (dir : Dir) (name : Bytes) (opened : Result IoError Dir)
      (otherwise : IoError → Install (Option Dir))
      → Holds (λ d. d ≡ dir ++ name ∷ []) opened
      → ((e : IoError) → Confines (IsOpened (dir ++ name ∷ [])) (otherwise e))
      → Confines (IsOpened (dir ++ name ∷ [])) (opened_or system opened otherwise)
  opened_or-Confines dir name (ok next) otherwise e h = λ machine safe. (safe, e)
  opened_or-Confines dir name (err error) otherwise e h = h error

  created_or-Confines :
      (Q : Option Dir → Type 0) (created : Result IoError (Unit {0}))
      (otherwise : IoError → Install (Option Dir)) (next : Install (Option Dir))
      → ((e : IoError) → Confines Q (otherwise e))
      → Confines Q next
      → Confines Q (created_or system created otherwise next)
  created_or-Confines Q (ok u) otherwise next bad good = good
  created_or-Confines Q (err e) otherwise next bad good = bad e

  module _ (dir : Dir) (name : Bytes) (proper : all is_segment dir ≡ true)
      (named : is_segment name ≡ true) where
    abbrev Opens : Install (Option Dir) → Type 0
    Opens = Confines (IsOpened (dir ++ name ∷ []))

    below : is_below dir name ≡ true
    below = ground arith

    failing : (e : IoError) → Opens (component_error system dir name e)
    failing e = component_error-Confines (IsOpened (dir ++ name ∷ [])) dir name e below

    opening :
        (otherwise : IoError → Install (Option Dir))
        → ((e : IoError) → Opens (otherwise e))
        → Opens (
            attempt (open_component system dir name) >>= λ opened.
            opened_or system opened otherwise)
    opening otherwise h =
        match-Confines (λ d. d ≡ dir ++ name ∷ []) (IsOpened (dir ++ name ∷ []))
          (open_component system dir name) (λ opened. opened_or system opened otherwise)
          (open_component-Confines system dir name proper named)
          (λ opened e. opened_or-Confines dir name opened otherwise e h)

    create_child-Confines : Opens (create_child system dir name)
    unfolding create_child is_confined
    create_child-Confines =
        let call = create_directory dir name in
        let confined : is_confined call ≡ true = below in
        let failed = component_error system dir name in
        match-Confines (λ u. Unit) (IsOpened (dir ++ name ∷ [])) (perform_call system call)
          (λ created.
            created_or system created failed (
              attempt (open_component system dir name) >>= λ opened.
              opened_or system opened failed))
          (perform_call-Confines system call confined)
          (λ created u.
            created_or-Confines (IsOpened (dir ++ name ∷ [])) created failed
              (attempt (open_component system dir name) >>= λ opened.
                opened_or system opened failed)
              failing (opening failed failing))

    missing-Confines :
        (create_missing : Bool)
        → Opens (if create_missing then create_child system dir name else lift (ok none))
    missing-Confines true = create_child-Confines
    missing-Confines false = λ machine safe. (safe, tt)

    otherwise-Confines :
        (create_missing found : Bool) (e : IoError)
        → Opens (
            if found
            then (if create_missing then create_child system dir name else lift (ok none))
            else component_error system dir name e)
    otherwise-Confines create_missing true e = missing-Confines create_missing
    otherwise-Confines create_missing false e = failing e

    open_child-Confines :
        (create_missing : Bool) → Opens (open_child system dir name create_missing)
    unfolding open_child
    open_child-Confines create_missing =
        opening
          (λ e.
            if is_not_found e.kind
            then (if create_missing then create_child system dir name else lift (ok none))
            else component_error system dir name e)
          (λ e. otherwise-Confines create_missing (is_not_found e.kind) e)

  and_open-Confines :
      (dir goal : Dir) (next : Option Dir) (f : Dir → Install (Option Dir))
      → IsOpened dir next
      → Confines (IsOpened goal) (f dir)
      → Confines (IsOpened goal) (and_open system next f)
  and_open-Confines dir goal none f e h = λ machine safe. (safe, tt)
  and_open-Confines dir goal (some d) f e h = rw e h

  open_components-Confines :
      (refused : ArtifactInstallError) (create_missing : Bool) (names : List Bytes) (dir : Dir)
      → all is_segment names ≡ true
      → all is_segment dir ≡ true
      → Confines
          (IsOpened (dir ++ names))
          (open_components system refused create_missing (map normal names) dir)
  unfolding open_components
  open_components-Confines refused create_missing [] dir h proper =
      λ machine safe. (safe, sym (append-nil dir))
  open_components-Confines refused create_missing (name ∷ names) dir h proper =
      let (named, rest) = &&-eq_true (is_segment name) (all is_segment names) h in
      let whole = all-append is_segment dir (name ∷ []) in
      let longer : all is_segment (dir ++ name ∷ []) ≡ true = ground arith in
      let again = open_components system refused create_missing (map normal names) in
      let rec =
        open_components-Confines refused create_missing names (dir ++ name ∷ []) rest longer in
      >>=-Confines (IsOpened (dir ++ name ∷ [])) (IsOpened (dir ++ name ∷ names))
        (open_child system dir name create_missing) (λ next. and_open system next again)
        (open_child-Confines dir name proper named create_missing)
        (λ next e. and_open-Confines (dir ++ name ∷ []) (dir ++ name ∷ names) next again e (
          subst (λ d. Confines (IsOpened d) (again (dir ++ name ∷ [])))
            (append_assoc dir (name ∷ []) names) rec))

  pub open_archive_directory_root-Confines :
      Confines (λ d. d ≡ []) (open_archive_directory_root system)
  unfolding open_archive_directory_root
  open_archive_directory_root-Confines =
      map_error-Confines (λ d. d ≡ []) (open_component system [] (b'.' ∷ [])) from_io
        (open_root-Confines system)

  module _ (entry_path : Bytes) (names : List Bytes) (create_missing : Bool)
      (h : all is_segment names ≡ true) where
    chain-Confines : Confines (IsOpened names) (
        open_archive_directory_root system
        >>= open_components system
            (unsafe_parent system entry_path (path_of names))
            create_missing
            (components (path_of names)))
    chain-Confines =
        let refused = unsafe_parent system entry_path (path_of names) in
        let steps = open_components-Confines refused create_missing names [] h refl in
        let same = sym (components-path_of names h) in
        >>=-Confines (λ d. d ≡ []) (IsOpened names) (open_archive_directory_root system)
          (open_components system refused create_missing (components (path_of names)))
          open_archive_directory_root-Confines (λ root e. rw (e, sym same) steps)

    pub try_open_archive_directory_chain-Confines :
        Confines
          (IsOpened names)
          (try_open_archive_directory_chain system entry_path (path_of names) create_missing)
    unfolding try_open_archive_directory_chain
    try_open_archive_directory_chain-Confines =
        if-Confines (IsOpened names) (is_empty (path_of names)) _ _
          (λ e.
            >>=-Confines (λ d. d ≡ []) (IsOpened names) (open_archive_directory_root system)
              (λ root. lift (ok (some root))) open_archive_directory_root-Confines
              (λ root opened machine safe. (safe, opened ∙ sym (is_empty-path_of names h e))))
          (λ e. chain-Confines)

    pub ensure_archive_directory_chain-Confines :
        Confines
          (λ d. d ≡ names)
          (ensure_archive_directory_chain system entry_path (path_of names) create_missing)
    unfolding ensure_archive_directory_chain
    ensure_archive_directory_chain-Confines =
        let missing =
          install "archive parent `{}` does not exist for {}"
            (to_string_lossy (path_of names) ∷ to_string_lossy entry_path ∷ []) in
        >>=-Confines (IsOpened names) (λ d. d ≡ names)
          (try_open_archive_directory_chain system entry_path (path_of names) create_missing)
          (λ opened. lift (ok_or opened missing)) try_open_archive_directory_chain-Confines
          (λ opened e.
            lift-Confines (λ d. d ≡ names) (ok_or opened missing)
              (ok_or-Holds names opened missing e))
