-- ===== src/Gateway/Programs/Binding.antt =====
-- What a bound program is known to be, when it is bound and when it is revalidated.
use omne_runtime.Base.{
  Option-cases, Bool-cases, text_eq_iff, inr, inl, Result-cases, arith, true, ok, ◌≡◌, Bytes,
}
use omne_runtime.FsPath.{is_absolute}
use omne_runtime.Gateway.Host.{is_spawnable_program_path, Crates, FileSystem}
use omne_runtime.Gateway.Policy.{is_explicit_program_path}
use omne_runtime.Gateway.Programs.{
  resolve_bare_program_path, is_absolute, is_explicit_program_path, bind_bare_program_path,
  revalidate_linux_bound_program_executable, bind_explicit_program_path, revalidate_bound_program,
  bind_program_path, linux_proc_fd_path, fingerprint_program_contents, Bytes,
  bind_linux_program_executable, bind_absolute_program_path, BoundProgram,
}

module _ (fs : FileSystem) (crates : Crates) where
  -- The path is canonical and names an executable regular file, whose identity and fingerprint are
  -- those of the bound descriptor too.
  pub record IsBound (bound : BoundProgram) : Type 0 where
    pub spawnable : is_spawnable_program_path fs bound.path ≡ true
    pub identity : fs.identity bound.path ≡ ok bound.identity
    pub fingerprint :
        fingerprint_program_contents fs crates bound.path ≡ ok bound.content_fingerprint
    pub descriptor_identity : fs.identity (linux_proc_fd_path bound.executable) ≡ ok bound.identity
    pub descriptor_fingerprint :
        fingerprint_program_contents fs crates (linux_proc_fd_path bound.executable)
        ≡ ok bound.content_fingerprint

  pub bind_absolute_program_path-IsBound :
      (requested : Bytes) (bound : BoundProgram)
      → bind_absolute_program_path fs crates requested ≡ ok bound
      → IsBound bound × (fs.canonicalize requested ≡ ok bound.path)
  unfolding bind_absolute_program_path bind_linux_program_executable
  bind_absolute_program_path-IsBound requested bound h = (
    record {
      spawnable = ground arith;
      identity = ground arith;
      fingerprint = ground arith;
      descriptor_identity = ground arith;
      descriptor_fingerprint =
          elim (Result-cases
            (fingerprint_program_contents fs crates (linux_proc_fd_path bound.executable))) [
              | inl (f, q) ↦ ground (arith, text_eq_iff f bound.content_fingerprint)
              | inr (e, q) ↦ ground arith
            ];
    },
    ground arith,
  )

  -- A program that is bound has an executable regular file as its path, whose identity and
  -- fingerprint are those that were bound, also behind the bound descriptor.
  pub bind_program_path-IsBound :
      (program : Bytes) (bound : BoundProgram)
      → bind_program_path fs crates program ≡ ok bound
      → IsBound bound
  unfolding bind_program_path bind_explicit_program_path bind_bare_program_path
  bind_program_path-IsBound program bound h = elim (Bool-cases (is_explicit_program_path program)) [
    | inl e ↦ (bind_absolute_program_path-IsBound program bound (ground arith)).0
    | inr e ↦ elim (Option-cases (resolve_bare_program_path fs program)) [
      | inl q ↦ ground arith
      | inr (path, q) ↦ (bind_absolute_program_path-IsBound path bound (ground arith)).0
    ]
  ]

  -- An explicit program that can be bound is named by an absolute path.
  pub bind_program_path-is_absolute :
      (program : Bytes) (bound : BoundProgram)
      → is_explicit_program_path program ≡ true
      → bind_program_path fs crates program ≡ ok bound
      → is_absolute program ≡ true
  unfolding bind_program_path bind_explicit_program_path
  bind_program_path-is_absolute program bound explicit h = ground arith

  -- When the revalidation of a bound program succeeds, its path names an executable regular file,
  -- and the file at the path and the file behind the bound descriptor both have the bound identity
  -- and the bound fingerprint.
  pub revalidate_bound_program-IsBound :
      (bound : BoundProgram) → revalidate_bound_program fs crates bound ≡ ok tt → IsBound bound
  unfolding revalidate_bound_program revalidate_linux_bound_program_executable
  revalidate_bound_program-IsBound bound h =
      elim (Result-cases (fingerprint_program_contents fs crates bound.path)) [
        | inr (e, q) ↦ ground arith
        | inl (f, q) ↦
            elim (Result-cases
              (fingerprint_program_contents fs crates (linux_proc_fd_path bound.executable))) [
                | inr (e, q') ↦ ground arith
                | inl (g, q') ↦ record {
                  spawnable = ground arith;
                  identity = ground arith;
                  fingerprint = ground (arith, text_eq_iff f bound.content_fingerprint);
                  descriptor_identity = ground arith;
                  descriptor_fingerprint = ground (arith, text_eq_iff g bound.content_fingerprint);
                }
              ]
      ]
