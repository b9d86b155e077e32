-- ===== src/Fs/Patch/Names.antt =====
-- When a header of a patch names a file, of `ensure_patch_headers_match_target` in
-- crates/omne-fs/src/ops/patch.rs.
use omne_runtime.Base.{
  text_eq→eq, text_eq, [], refl, ==_iff, ◌==◌, inr, ◌∷◌, inl, arith, all, &&-eq_true, ◌++◌, some,
  none, false, codes, Bool-cases, ◌⊎◌, ◌≡◌, true, Bool, Text, List, Bytes,
}
use omne_runtime.Fs.Patch.{
  patch_header_path_error, first_path_error, strip_prefixed_non_empty, normalized_header_value,
  Diffy, header_path,
}
use omne_runtime.Fs.Paths.{
  strip_current_dirs, normalized_for_boundary, normalize_path_lexical, paths_equal_case_insensitive,
}
use omne_runtime.FsPath.{
  cur_dir, root_dir, parent_dir, components, normal, path_starts_with, path_components,
  components_start_with, Component,
}
use omne_runtime.Text.{as_bytes, is_empty, strip_prefix}

-- Two paths with the same components, once normalised.
abbrev pub IsSamePath : Bytes → Bytes → Type 0
IsSamePath a b =
    path_components (normalized_for_boundary a) ≡ path_components (normalized_for_boundary b)

components_start_with-antisym :
    (xs ys : List Bytes)
    → components_start_with xs ys ≡ true
    → components_start_with ys xs ≡ true
    → xs ≡ ys
unfolding components_start_with
components_start_with-antisym [] [] h k = refl
components_start_with-antisym [] (y ∷ ys) h k = cc
components_start_with-antisym (x ∷ xs) [] h k = cc
components_start_with-antisym (x ∷ xs) (y ∷ ys) h k =
    let (same, rest) = &&-eq_true (text_eq x y) (components_start_with xs ys) h in
    let (_, back) = &&-eq_true (text_eq y x) (components_start_with ys xs) k in
    let head = text_eq→eq x y same in let tail = components_start_with-antisym xs ys rest back in cc

paths_equal_case_insensitive-IsSamePath :
    (a b : Bytes) → paths_equal_case_insensitive a b ≡ true → IsSamePath a b
unfolding paths_equal_case_insensitive path_starts_with
paths_equal_case_insensitive-IsSamePath a b h =
    let a' = normalized_for_boundary a in
    let b' = normalized_for_boundary b in
    let (there, back) = &&-eq_true (path_starts_with a' b') (path_starts_with b' a') h in
    components_start_with-antisym (path_components a') (path_components b') there back

-- A component that neither is `..` nor stands for the root.
abbrev pub is_inner : Component → Bool
is_inner parent_dir = false
is_inner root_dir = false
is_inner cur_dir = true
is_inner (normal s) = true

-- A text that names the requested file: without the `./` in front it is a path that is not empty,
-- neither absolute nor with a `..`, and the same as the requested one.
pub record IsNameOf (name : Text) (requested : Bytes) : Type 0 where
  pub filled : is_empty (strip_current_dirs name) ≡ false
  pub inner : all is_inner (components (as_bytes (strip_current_dirs name))) ≡ true
  pub same :
      IsSamePath
        (normalize_path_lexical (as_bytes (strip_current_dirs name)))
        (normalize_path_lexical requested)

-- The texts behind the prefixes of git, one header with `a/` and the other with `b/`.
pub record IsGitPair (original modified : Text) : Type 0 where
  pub first : Text
  pub second : Text
  pub prefixed :
      ((original ≡ codes "a/" ++ first) × (modified ≡ codes "b/" ++ second))
      ⊎ ((original ≡ codes "b/" ++ first) × (modified ≡ codes "a/" ++ second))

-- A header that names the requested file as it stands, or without a prefix of git where the headers
-- are such a pair.
abbrev pub IsHeaderOf : Text → Text → Bytes → Text → Type 0
IsHeaderOf original modified requested header =
    IsNameOf header requested
    ⊎ (IsGitPair original modified
        × (name : Text) × ((header ≡ codes "a/" ++ name) ⊎ (header ≡ codes "b/" ++ name))
        × IsNameOf name requested)

-- What the headers of a patch are for a file: the default names of diffy, which any file is taken
-- for, or both name the file.
pub record IsForFile (diffy : Diffy) (parsed : diffy.Patch) (requested : Bytes) : Type 0 where
  pub original : Text
  pub modified : Text
  pub has_original : diffy.original parsed ≡ some original
  pub has_modified : diffy.modified parsed ≡ some modified
  pub named :
      ((original ≡ codes "original") × (modified ≡ codes "modified"))
      ⊎ (IsHeaderOf original modified requested original
          × IsHeaderOf original modified requested modified)

first_path_error-eq_none :
    (cs : List Component) → first_path_error cs ≡ none → all is_inner cs ≡ true
first_path_error-eq_none [] h = refl
first_path_error-eq_none (parent_dir ∷ cs) h = cc
first_path_error-eq_none (root_dir ∷ cs) h = cc
first_path_error-eq_none (cur_dir ∷ cs) h = first_path_error-eq_none cs h
first_path_error-eq_none (normal s ∷ cs) h = first_path_error-eq_none cs h

strip_prefix-eq_some : (p t rest : Text) → strip_prefix p t ≡ some rest → t ≡ p ++ rest
unfolding strip_prefix
strip_prefix-eq_some [] t rest h = cc
strip_prefix-eq_some (p ∷ ps) [] rest h = cc
strip_prefix-eq_some (p ∷ ps) (c ∷ t) rest h = elim (Bool-cases (p == c)) [
  | inl same ↦
      let e = (==_iff p c).0 same in let tail = strip_prefix-eq_some ps t rest (ground arith) in cc
  | inr other ↦ ground arith
]

pub strip_prefixed_non_empty-eq_some :
    (value prefix stripped : Text)
    → strip_prefixed_non_empty value prefix ≡ some stripped
    → value ≡ prefix ++ stripped
unfolding strip_prefixed_non_empty
strip_prefixed_non_empty-eq_some value prefix stripped h =
    strip_prefix-eq_some prefix value stripped (ground arith)

pub normalized_header_value-IsNameOf :
    (name : Text) (path requested : Bytes)
    → normalized_header_value name ≡ header_path path
    → paths_equal_case_insensitive path (normalize_path_lexical requested) ≡ true
    → IsNameOf name requested
unfolding normalized_header_value patch_header_path_error
normalized_header_value-IsNameOf name path requested h same =
    let value = as_bytes (strip_current_dirs name) in
    let made : path ≡ normalize_path_lexical value = ground arith in
    record {
      filled = ground arith;
      inner = first_path_error-eq_none (components value) (ground arith);
      same =
          paths_equal_case_insensitive-IsSamePath (normalize_path_lexical value)
            (normalize_path_lexical requested) (rw (← made) same);
    }
