-- ===== src/Fs/Policy/Resolution.antt =====
-- Where the lexical resolution of a request path can lead.
use omne_runtime.Base.{
  Result-cases, arith, List, not, if◌then◌else◌, ◌&&◌, all, ◌≡◌, Text, Bytes, true, false, [], ◌∷◌,
  ◌++◌, ok, refl, inl, inr,
}
use omne_runtime.Fs.Policy.{
  normalized_for_boundary, is_cur_dir, policy_root, Root, resolve_path_unchecked,
  resolve_path_checked, SandboxPolicy,
}
use omne_runtime.FsPath.{path_starts_with, is_absolute, path_components, components, push}
use omne_runtime.FsPath.Laws.{path_starts_with_iff, components-absolute}

push-is_absolute :
    (root path : Bytes) → is_absolute root ≡ true → is_absolute (push root path) ≡ true
unfolding push is_absolute
push-is_absolute [] path h = cc
push-is_absolute (c ∷ root) path h = ground arith

absolute-not_cur_dirs :
    (path : Bytes) → is_absolute path ≡ true → all is_cur_dir (components path) ≡ false
absolute-not_cur_dirs path h =
    let (cs, split_off, plain) = components-absolute path h in rw split_off refl

-- A path that is resolved for a root: the root is the policy's, an absolute request is permitted, and
-- the normalised result has the components of the normalised root in front.
pub record IsResolved (policy : SandboxPolicy) (root_id : Text) (path resolved : Bytes)
    (root : Root) : Type 0 where
  pub permitted : (is_absolute path && not policy.allow_absolute) ≡ false
  pub rest : List Bytes
  pub inside :
      path_components resolved ≡ path_components (normalized_for_boundary root.path) ++ rest
  pub normalized :
      resolved ≡ normalized_for_boundary (if is_absolute path then path else push root.path path)

abbrev joined_path : Root → Bytes → Bytes
joined_path root path = if is_absolute path then path else push root.path path

resolve_path_unchecked-joined :
    (policy : SandboxPolicy) (root_id : Text) (path joined : Bytes) (root : Root)
    → policy_root policy root_id ≡ ok root
    → resolve_path_unchecked policy root_id path ≡ ok joined
    → (joined ≡ joined_path root path) × ((is_absolute path && not policy.allow_absolute) ≡ false)
unfolding resolve_path_unchecked
resolve_path_unchecked-joined policy root_id path joined root found h = (ground arith, ground arith)

resolve_path_checked-eq_ok :
    (policy : SandboxPolicy) (root_id : Text) (path resolved joined : Bytes) (root : Root)
    → policy_root policy root_id ≡ ok root
    → resolve_path_unchecked policy root_id path ≡ ok joined
    → all is_cur_dir (components joined) ≡ false
    → resolve_path_checked policy root_id path ≡ ok resolved
    → (resolved ≡ normalized_for_boundary joined)
      × (path_starts_with resolved (normalized_for_boundary root.path) ≡ true)
unfolding resolve_path_checked
resolve_path_checked-eq_ok policy root_id path resolved joined root found from real h =
    (ground arith, ground arith)

joined_path-is_absolute :
    (root : Root) (path : Bytes)
    → is_absolute root.path ≡ true
    → is_absolute (joined_path root path) ≡ true
joined_path-is_absolute root path h = ground (arith, push-is_absolute root.path path)

-- What is resolved for a root with an absolute path: an absolute request only where the policy
-- permits it; the normal form of the request joined to the root; and with the components of the
-- normal form of the root in front.
pub resolve_path_checked-IsResolved :
    (policy : SandboxPolicy) (root_id : Text) (path resolved : Bytes) (root : Root)
    → policy_root policy root_id ≡ ok root
    → is_absolute root.path ≡ true
    → resolve_path_checked policy root_id path ≡ ok resolved
    → IsResolved policy root_id path resolved root
unfolding resolve_path_checked
resolve_path_checked-IsResolved policy root_id path resolved root found rooted h =
    elim (Result-cases (resolve_path_unchecked policy root_id path)) [
      | inr (e, q) ↦ absurd (ground arith)
      | inl (joined, q) ↦
          let (same, permitted) =
            resolve_path_unchecked-joined policy root_id path joined root found q in
          let absolute : is_absolute joined ≡ true =
            rw same (joined_path-is_absolute root path rooted) in
          let (normalized, starts) =
            resolve_path_checked-eq_ok policy root_id path resolved joined root found q
              (absolute-not_cur_dirs joined absolute) h in
          let (rest, inside) =
            (path_starts_with_iff resolved (normalized_for_boundary root.path)).0 starts in
          record {
            permitted = permitted;
            rest = rest;
            inside = inside;
            normalized = rw (← same) normalized;
          }
    ]
