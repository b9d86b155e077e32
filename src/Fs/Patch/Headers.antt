-- ===== src/Fs/Patch/Headers.antt =====
-- What the test of the headers of a patch shows, `ensure_patch_headers_match_target` in
-- crates/omne-fs/src/ops/patch.rs.
use omne_runtime.Base.{
  text_eq→eq, text_eq, refl, not, ◌||◌, inr, ◌&&◌, inl, arith, Option-cases, &&-eq_true, ◌++◌, some,
  ok, false, codes, Bool-cases, ◌⊎◌, ◌≡◌, true, Bool, Text, Bytes,
}
use omne_runtime.Fs.Patch.{
  PatchHeaderPathError, is_match_result, patch_uses_diffy_default_filenames, has_prefix,
  ensure_headers_match, strip_prefixed_non_empty, strip_git_patch_prefix,
  patch_headers_form_git_prefixed_pair, patch_header_matches_path, normalized_patch_header_path,
  ensure_patch_headers_match_target, ensure_header_matches, Diffy, match_header, header_path,
  invalid_header, missing_git_prefix, PatchHeaderMatchResult, header_match, header_mismatch,
  header_invalid, NormalizedPatchHeaderPath,
}
use omne_runtime.Fs.Patch.Names.{
  IsNameOf, IsGitPair, IsHeaderOf, IsForFile, normalized_header_value-IsNameOf,
  strip_prefixed_non_empty-eq_some,
}
use omne_runtime.Fs.Paths.{normalize_path_lexical, paths_equal_case_insensitive}

has_prefix-eq_true :
    (value prefix : Text)
    → has_prefix value prefix ≡ true
    → (stripped : Text) × (value ≡ prefix ++ stripped)
has_prefix-eq_true value prefix h = elim (Option-cases (strip_prefixed_non_empty value prefix)) [
  | inl q ↦ absurd (ground arith)
  | inr (stripped, q) ↦ (stripped, strip_prefixed_non_empty-eq_some value prefix stripped q)
]

patch_headers_form_git_prefixed_pair-IsGitPair :
    (original modified : Text)
    → patch_headers_form_git_prefixed_pair original modified ≡ true
    → IsGitPair original modified
unfolding patch_headers_form_git_prefixed_pair
patch_headers_form_git_prefixed_pair-IsGitPair original modified h =
    elim (Bool-cases (has_prefix original (codes "a/") && has_prefix modified (codes "b/"))) [
      | inl t ↦
          let (a, b) = &&-eq_true (has_prefix original (codes "a/")) _ t in
          let (first, p) = has_prefix-eq_true original (codes "a/") a in
          let (second, q) = has_prefix-eq_true modified (codes "b/") b in
          record { first = first; second = second; prefixed = inl (p, q) }
      | inr f ↦
          let (a, b) = &&-eq_true (has_prefix original (codes "b/")) _ (ground arith) in
          let (first, p) = has_prefix-eq_true original (codes "b/") a in
          let (second, q) = has_prefix-eq_true modified (codes "a/") b in
          record { first = first; second = second; prefixed = inr (p, q) }
    ]

strip_git_patch_prefix-eq_some :
    (header name : Text)
    → strip_git_patch_prefix header ≡ some name
    → (header ≡ codes "a/" ++ name) ⊎ (header ≡ codes "b/" ++ name)
unfolding strip_git_patch_prefix
strip_git_patch_prefix-eq_some header name h =
    elim (Option-cases (strip_prefixed_non_empty header (codes "a/"))) [
      | inl q ↦ inr (strip_prefixed_non_empty-eq_some header (codes "b/") name (ground arith))
      | inr (stripped, q) ↦
          inl (strip_prefixed_non_empty-eq_some header (codes "a/") name (ground arith))
    ]

-- A test that matches found a path that is the requested one, or left the result to the other tests.
match_header-eq_match :
    (requested : Bytes) (otherwise : PatchHeaderMatchResult) (found : NormalizedPatchHeaderPath)
    → match_header requested otherwise found ≡ header_match
    → ((path : Bytes) × (found ≡ header_path path)
        × (paths_equal_case_insensitive path requested ≡ true))
      ⊎ (otherwise ≡ header_match)
match_header-eq_match requested otherwise (header_path path) h =
    elim (Bool-cases (paths_equal_case_insensitive path requested)) [
      | inl same ↦ inl (path, refl, same)
      | inr other ↦ inr (ground arith)
    ]
match_header-eq_match requested otherwise (invalid_header kind) h = cc
match_header-eq_match requested otherwise missing_git_prefix h = inr h

normalized_patch_header_path-IsNameOf :
    (header : Text) (path requested : Bytes)
    → normalized_patch_header_path header true ≡ header_path path
    → paths_equal_case_insensitive path (normalize_path_lexical requested) ≡ true
    → (name : Text) × ((header ≡ codes "a/" ++ name) ⊎ (header ≡ codes "b/" ++ name))
      × IsNameOf name requested
unfolding normalized_patch_header_path
normalized_patch_header_path-IsNameOf header path requested h same =
    elim (Option-cases (strip_git_patch_prefix header)) [
      | inl q ↦ absurd (ground arith)
      | inr (name, q) ↦ (
        name,
        strip_git_patch_prefix-eq_some header name q,
        normalized_header_value-IsNameOf name path requested (ground arith) same,
      )
    ]

plain_header-IsNameOf :
    (header : Text) (requested : Bytes)
    → match_header
        (normalize_path_lexical requested)
        header_mismatch
        (normalized_patch_header_path header false)
      ≡ header_match
    → IsNameOf header requested
unfolding normalized_patch_header_path
plain_header-IsNameOf header requested h =
    elim (match_header-eq_match (normalize_path_lexical requested) header_mismatch
      (normalized_patch_header_path header false) h) [
        | inl (path, found, same) ↦
            normalized_header_value-IsNameOf header path requested found same
        | inr bad ↦ cc
      ]

patch_header_matches_path-IsHeaderOf :
    (original modified header : Text) (requested : Bytes)
    → patch_header_matches_path header requested
        (patch_headers_form_git_prefixed_pair original modified)
      ≡ header_match
    → IsHeaderOf original modified requested header
unfolding patch_header_matches_path
patch_header_matches_path-IsHeaderOf original modified header requested h =
    let target = normalize_path_lexical requested in
    let pair = patch_headers_form_git_prefixed_pair original modified in
    let plain = match_header target header_mismatch (normalized_patch_header_path header false) in
    elim (Bool-cases (is_match_result plain || not pair)) [
      | inl decided ↦
          let e : plain ≡ header_match = ground arith in
          inl (plain_header-IsNameOf header requested e)
      | inr open_still ↦
          let e : match_header target plain (normalized_patch_header_path header true)
              ≡ header_match =
            ground arith in
          let git =
            patch_headers_form_git_prefixed_pair-IsGitPair original modified (ground arith) in
          elim (match_header-eq_match target plain (normalized_patch_header_path header true) e) [
            | inl (path, found, same) ↦
                let (name, spelled, named) =
                  normalized_patch_header_path-IsNameOf header path requested found same in
                inr (git, name, spelled, named)
            | inr matched ↦ inl (plain_header-IsNameOf header requested matched)
          ]
    ]

PatchHeaderMatchResult-cases :
    (r : PatchHeaderMatchResult)
    → (r ≡ header_match)
      ⊎ ((r ≡ header_mismatch) ⊎ ((kind : PatchHeaderPathError) × (r ≡ header_invalid kind)))
PatchHeaderMatchResult-cases header_match = inl refl
PatchHeaderMatchResult-cases header_mismatch = inr (inl refl)
PatchHeaderMatchResult-cases (header_invalid kind) = inr (inr (kind, refl))

ensure_header_matches-eq_ok :
    (header : Text) (requested : Bytes) (allow : Bool)
    → ensure_header_matches header requested allow ≡ ok tt
    → patch_header_matches_path header requested allow ≡ header_match
unfolding ensure_header_matches
ensure_header_matches-eq_ok header requested allow h =
    elim (PatchHeaderMatchResult-cases (patch_header_matches_path header requested allow)) [
      | inl matched ↦ matched
      | inr (inl other) ↦ absurd (ground arith)
      | inr (inr (kind, bad)) ↦ absurd (ground arith)
    ]

ensure_headers_match-eq_ok :
    (original modified : Text) (requested : Bytes)
    → ensure_headers_match original modified requested
        (patch_headers_form_git_prefixed_pair original modified)
      ≡ ok tt
    → ((original ≡ codes "original") × (modified ≡ codes "modified"))
      ⊎ (IsHeaderOf original modified requested original
          × IsHeaderOf original modified requested modified)
unfolding ensure_headers_match patch_uses_diffy_default_filenames
ensure_headers_match-eq_ok original modified requested h =
    let pair = patch_headers_form_git_prefixed_pair original modified in
    elim (Bool-cases (patch_uses_diffy_default_filenames original modified)) [
      | inl defaults ↦
          let (a, b) = &&-eq_true (text_eq original (codes "original")) _ defaults in
          inl (text_eq→eq original (codes "original") a, text_eq→eq modified (codes "modified") b)
      | inr named ↦
          let first = ensure_header_matches-eq_ok original requested pair (ground arith) in
          let second = ensure_header_matches-eq_ok modified requested pair (ground arith) in
          inr (
            patch_header_matches_path-IsHeaderOf original modified original requested first,
            patch_header_matches_path-IsHeaderOf original modified modified requested second,
          )
    ]

-- Headers that pass the test are those of the file.
pub ensure_patch_headers_match_target-IsForFile :
    (diffy : Diffy) (parsed : diffy.Patch) (requested : Bytes)
    → ensure_patch_headers_match_target diffy parsed requested ≡ ok tt
    → IsForFile diffy parsed requested
unfolding ensure_patch_headers_match_target
ensure_patch_headers_match_target-IsForFile diffy parsed requested h =
    elim (Option-cases (diffy.original parsed)) [
      | inl q ↦ absurd (ground arith)
      | inr (original, q) ↦ elim (Option-cases (diffy.modified parsed)) [
        | inl r ↦ absurd (ground arith)
        | inr (modified, r) ↦ record {
          original = original;
          modified = modified;
          has_original = q;
          has_modified = r;
          named = ensure_headers_match-eq_ok original modified requested (ground arith);
        }
      ]
    ]
