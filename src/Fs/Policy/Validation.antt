-- ===== src/Fs/Policy/Validation.antt =====
-- What the structural validation of a policy guarantees.
use omne_runtime.Base.{
  text_eq, ||-eq_false, text_eq_refl, text_eq_iff, length, contains, Text, List, le→leb, arith, ◌≤◌,
  ◌↔◌, ◌*◌, ◌≡◌, ◌<◌, String, ℕ, Option, some, none, true, false, [], ◌∷◌, ◌++◌, ok, refl,
}
use omne_runtime.Fs.Policy.{
  SandboxPolicy, policy_root, validate_structural, is_valid_root_id, root_id_max_len, find_root,
  as_bytes, trim, is_empty, validate_roots, validate_root, Root, max_line_bytes_hard_cap,
  max_walk_entries_hard_cap, max_walk_files_hard_cap, validate_optional_limit, max_results_hard_cap,
  max_response_bytes_hard_cap, max_bytes_hard_cap, validate_response_budget, validate_limits,
  validate_limit, validate_glob_response_budget, Limits,
}
use omne_runtime.FsPath.{is_absolute}

-- A limit between 1 and its cap.
abbrev pub IsWithin : ℕ → ℕ → Type 0
IsWithin value cap = (0 < value) × (value ≤ cap)

abbrev pub IsOptionWithin : Option ℕ → ℕ → Type 0
IsOptionWithin none cap = Unit
IsOptionWithin (some value) cap = IsWithin value cap

-- The exact conditions on limits. The time of a walk has none: zero is a valid budget. The products
-- are numbers, not machine words: that they do not overflow follows.
pub record IsValidLimits (l : Limits) : Type 0 where
  pub read_bytes : IsWithin l.max_read_bytes max_bytes_hard_cap
  pub patch_bytes : IsOptionWithin l.max_patch_bytes max_bytes_hard_cap
  pub write_bytes : IsWithin l.max_write_bytes max_bytes_hard_cap
  pub results : IsWithin l.max_results max_results_hard_cap
  pub walk_files : IsWithin l.max_walk_files max_walk_files_hard_cap
  pub walk_entries : IsWithin l.max_walk_entries max_walk_entries_hard_cap
  pub files_of_entries : l.max_walk_files ≤ l.max_walk_entries
  pub line_bytes : IsWithin l.max_line_bytes max_line_bytes_hard_cap
  pub glob_bytes : IsOptionWithin l.max_glob_bytes max_response_bytes_hard_cap
  pub response_bytes : l.max_results * l.max_line_bytes ≤ max_response_bytes_hard_cap

validate_limit_iff :
    (value : ℕ) (field : String) (cap : ℕ)
    → (validate_limit value field cap ≡ ok tt) ↔ IsWithin value cap
unfolding validate_limit
validate_limit_iff value field cap = (λ h. (ground arith, ground arith), λ w. ground arith)

validate_optional_limit_iff :
    (value : Option ℕ) (field : String) (cap : ℕ)
    → (validate_optional_limit value field cap ≡ ok tt) ↔ IsOptionWithin value cap
validate_optional_limit_iff none field cap = (λ h. tt, λ w. refl)
validate_optional_limit_iff (some value) field cap = validate_limit_iff value field cap

validate_response_budget_iff :
    (a b : ℕ) (message : String)
    → (validate_response_budget a b message ≡ ok tt) ↔ (a * b ≤ max_response_bytes_hard_cap)
unfolding validate_response_budget
validate_response_budget_iff a b message = (λ h. ground arith, λ w. ground arith)

validate_glob_of_within :
    (a b : ℕ) (bytes : Option ℕ)
    → IsOptionWithin bytes max_response_bytes_hard_cap
    → a * b ≤ max_response_bytes_hard_cap
    → validate_glob_response_budget a b bytes ≡ ok tt
unfolding validate_glob_response_budget
validate_glob_of_within a b none w h = ground arith
validate_glob_of_within a b (some bytes) w h = ground arith

validate_limits-IsValidLimits : (l : Limits) → validate_limits l ≡ ok tt → IsValidLimits l
unfolding validate_limits
validate_limits-IsValidLimits l h = record {
  read_bytes =
      (validate_limit_iff l.max_read_bytes "limits.max_read_bytes" max_bytes_hard_cap).0
        (ground arith);
  patch_bytes =
      (validate_optional_limit_iff l.max_patch_bytes "limits.max_patch_bytes" max_bytes_hard_cap).0
        (ground arith);
  write_bytes =
      (validate_limit_iff l.max_write_bytes "limits.max_write_bytes" max_bytes_hard_cap).0
        (ground arith);
  results =
      (validate_limit_iff l.max_results "limits.max_results" max_results_hard_cap).0 (ground arith);
  walk_files =
      (validate_limit_iff l.max_walk_files "limits.max_walk_files" max_walk_files_hard_cap).0
        (ground arith);
  walk_entries =
      (validate_limit_iff l.max_walk_entries "limits.max_walk_entries" max_walk_entries_hard_cap).0
        (ground arith);
  line_bytes =
      (validate_limit_iff l.max_line_bytes "limits.max_line_bytes" max_line_bytes_hard_cap).0
        (ground arith);
  glob_bytes =
      (validate_optional_limit_iff l.max_glob_bytes "limits.max_glob_bytes"
          max_response_bytes_hard_cap).0
        (ground arith);
  files_of_entries = ground arith;
  response_bytes =
      (validate_response_budget_iff l.max_results l.max_line_bytes
          "limits.max_results * limits.max_line_bytes must be <= ").0
        (ground arith);
}

IsValidLimits-validate_limits : (l : Limits) → IsValidLimits l → validate_limits l ≡ ok tt
unfolding validate_limits
IsValidLimits-validate_limits l v =
    rw
      (
        (validate_limit_iff l.max_read_bytes "limits.max_read_bytes" max_bytes_hard_cap).1
            v.read_bytes,
        (validate_optional_limit_iff l.max_patch_bytes "limits.max_patch_bytes"
              max_bytes_hard_cap).1
            v.patch_bytes,
        (validate_limit_iff l.max_write_bytes "limits.max_write_bytes" max_bytes_hard_cap).1
            v.write_bytes,
        (validate_limit_iff l.max_results "limits.max_results" max_results_hard_cap).1 v.results,
        (validate_limit_iff l.max_walk_files "limits.max_walk_files" max_walk_files_hard_cap).1
            v.walk_files,
        (validate_limit_iff l.max_walk_entries "limits.max_walk_entries"
              max_walk_entries_hard_cap).1
            v.walk_entries,
        (validate_limit_iff l.max_line_bytes "limits.max_line_bytes" max_line_bytes_hard_cap).1
            v.line_bytes,
        (validate_optional_limit_iff l.max_glob_bytes "limits.max_glob_bytes"
              max_response_bytes_hard_cap).1
            v.glob_bytes,
        validate_glob_of_within l.max_results l.max_line_bytes l.max_glob_bytes v.glob_bytes
            v.response_bytes,
        le→leb l.max_walk_files l.max_walk_entries v.files_of_entries,
        (validate_response_budget_iff l.max_results l.max_line_bytes
              "list_dir response budget (limits.max_results * limits.max_line_bytes) must be <= ").1
            v.response_bytes,
        (validate_response_budget_iff l.max_results l.max_line_bytes
              "limits.max_results * limits.max_line_bytes must be <= ").1
            v.response_bytes,
      )
      refl

-- Limits are valid exactly when the limits of the bytes of a read, of a write and of a line, of the
-- results, and of the files and the entries of a walk, and, where they are set, those of the bytes
-- of a patch and of a glob response, are each at least 1 and at most the cap for it, no more files
-- than entries are walked, and the number of results times the bytes of a line is at most the cap
-- of a response; the time of a walk is not restricted and may be zero.
pub validate_limits_iff : (l : Limits) → (validate_limits l ≡ ok tt) ↔ IsValidLimits l
validate_limits_iff l = (validate_limits-IsValidLimits l, IsValidLimits-validate_limits l)

-- A root that stands behind others of which `seen_ids` are the identifiers.
pub record IsValidRoot (root : Root) : Type 0 where
  pub named : is_empty root.id ≡ false
  pub trimmed : trim root.id ≡ root.id
  pub short : length (as_bytes root.id) ≤ root_id_max_len
  pub valid : is_valid_root_id root.id ≡ true
  pub absolute : is_absolute root.path ≡ true

validate_root-IsValidRoot :
    (seen_ids : List Text) (root : Root)
    → validate_root seen_ids root ≡ ok tt
    → IsValidRoot root × (contains seen_ids root.id ≡ false)
unfolding validate_root
validate_root-IsValidRoot seen_ids root h =
    let exact = text_eq_iff (trim root.id) root.id in
    let same : trim root.id ≡ root.id = ground (arith, exact) in
    (
      record {
        named = ground (arith, same);
        trimmed = same;
        short = ground (arith, same);
        valid = ground (arith, same);
        absolute = ground arith;
      },
      ground (arith, same),
    )

text_eq_sym_false : (a b : Text) → text_eq a b ≡ false → text_eq b a ≡ false
text_eq_sym_false a b h = ground (arith, text_eq_iff a b, text_eq_iff b a)

validate_roots-member :
    (seen_ids : List Text) (before after : List Root) (root : Root)
    → validate_roots seen_ids (before ++ root ∷ after) ≡ ok tt
    → IsValidRoot root
      × (contains seen_ids root.id ≡ false)
      × (find_root root.id (before ++ root ∷ after) ≡ some root)
unfolding validate_roots
validate_roots-member seen_ids [] after root h =
    let (valid, fresh) = validate_root-IsValidRoot seen_ids root (ground arith) in
    (valid, fresh, rw (text_eq_refl root.id) refl)
validate_roots-member seen_ids (b ∷ before) after root h =
    let (b_valid, b_fresh) = validate_root-IsValidRoot seen_ids b (ground arith) in
    let (valid, fresh, found) =
      validate_roots-member (trim b.id ∷ seen_ids) before after root (ground arith) in
    let (other, rest) =
      ||-eq_false (text_eq root.id (trim b.id)) (contains seen_ids root.id) fresh in
    let apart = text_eq_sym_false root.id b.id (rw (← b_valid.trimmed) other) in
    (valid, rest, rw apart found)

-- Every root of a valid policy has a trimmed, short identifier of permitted characters and an
-- absolute path, and is the root that is found by its identifier.
pub validate_structural-member :
    (policy : SandboxPolicy) (before after : List Root) (root : Root)
    → validate_structural policy ≡ ok tt
    → policy.roots ≡ before ++ root ∷ after
    → IsValidRoot root × (policy_root policy root.id ≡ ok root)
unfolding validate_structural policy_root
validate_structural-member policy before after root h e =
    let checked_roots : validate_roots [] (before ++ root ∷ after) ≡ ok tt =
      rw (← e) (ground arith) in
    let (valid, fresh, found) = validate_roots-member [] before after root checked_roots in
    (valid, rw (policy_root, e, found) refl)
