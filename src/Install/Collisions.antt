-- ===== src/Install/Collisions.antt =====
-- archive_tree.rs of omne-artifact-install-primitives: `CaseCollisionTracker`, on a root that does not tell
-- upper from lower case.
use omne_runtime.Base.{
  ◌-◌, ◌+◌, ltb, ℕ, ◌/◌, ◌%◌, Bool, true, false, Option, none, some, List, [], ◌∷◌, ◌++◌, Text,
  Bytes, Result, ok, err, text_eq, ◌>>=◌, if◌then◌else◌,
}
use omne_runtime.FsPath.{
  Component, root_dir, cur_dir, parent_dir, normal, components, push, path_equals,
}
use omne_runtime.Install.{install, ArtifactInstallError}
use omne_runtime.Install.Links.{sanitize_tree_path}
use omne_runtime.Text.{to_string_lossy, to_ascii_lower}

-- The first path of each key
abbrev pub CaseCollisionTracker : Type 0
CaseCollisionTracker = List (Text × Bytes)

-- `HashMap::get`
unfoldable pub first_path_of : CaseCollisionTracker → Text → Option Bytes
unfolding text_eq
first_path_of [] key = none
first_path_of ((k, path) ∷ rest) key =
    let found = first_path_of rest key in if text_eq k key then some path else found

abbrev nibble : ℕ → ℕ
nibble n = if ltb n 10 then b'0' + n else b'a' + (n - 10)

-- `append_case_folded_component` on Unix
unfoldable pub case_folded : Bytes → Text
case_folded [] = []
case_folded (byte ∷ bytes) =
    let lowered = to_ascii_lower byte in
    nibble (lowered / 16) ∷ nibble (lowered % 16) ∷ case_folded bytes

-- The path has normal components only.
unfoldable pub key_from : Bool → List Component → Text
unfolding case_folded
key_from first [] = []
key_from true (normal component ∷ cs) = case_folded component ++ key_from false cs
key_from false (normal component ∷ cs) = b'/' ∷ (case_folded component ++ key_from false cs)
key_from first (root_dir ∷ cs) = key_from false cs
key_from first (cur_dir ∷ cs) = key_from false cs
key_from first (parent_dir ∷ cs) = key_from false cs

unfoldable pub case_collision_key : Bytes → Result ArtifactInstallError Text
unfolding sanitize_tree_path key_from components
case_collision_key path = do
  sanitized ← sanitize_tree_path path
  ok (key_from true (components sanitized))

abbrev case_collision_error : Bytes → Bytes → Bytes → ArtifactInstallError
case_collision_error entry_path candidate_path first_path =
    install
      "archive tree path `{}` collides with `{}` on a case-insensitive filesystem while extracting {}"
      (to_string_lossy candidate_path
        ∷ to_string_lossy first_path
        ∷ to_string_lossy entry_path
        ∷ [])

unfoldable pub ensure_exact_case_match :
    CaseCollisionTracker → Bytes → Bytes → Result ArtifactInstallError (Unit {0})
unfolding case_collision_key first_path_of path_equals to_string_lossy
ensure_exact_case_match tracker entry_path referenced_path = do
  key ← case_collision_key referenced_path
  elim (first_path_of tracker key) [
    | none ↦ ok tt
    | some first_path ↦
        if path_equals first_path referenced_path
        then ok tt
        else err (case_collision_error entry_path referenced_path first_path)
  ]

unfoldable pub record_exact_path :
    CaseCollisionTracker → Bytes → Bytes → Result ArtifactInstallError CaseCollisionTracker
unfolding case_collision_key first_path_of path_equals to_string_lossy
record_exact_path tracker entry_path candidate_path = do
  key ← case_collision_key candidate_path
  elim (first_path_of tracker key) [
    | none ↦ ok ((key, candidate_path) ∷ tracker)
    | some first_path ↦
        if path_equals first_path candidate_path
        then ok tracker
        else err (case_collision_error entry_path candidate_path first_path)
  ]

-- The loop of `record_path_chain`; the components are normal.
unfoldable pub record_chain :
    Bytes
    → List Component
    → Bytes
    → CaseCollisionTracker
    → Result ArtifactInstallError CaseCollisionTracker
unfolding record_exact_path push
record_chain path [] current tracker = ok tracker
record_chain path (normal component ∷ cs) current tracker = do
  recorded_case ← record_exact_path tracker path (push current component)
  record_chain path cs (push current component) recorded_case
record_chain path (root_dir ∷ cs) current tracker = ok tracker
record_chain path (cur_dir ∷ cs) current tracker = ok tracker
record_chain path (parent_dir ∷ cs) current tracker = ok tracker

unfoldable pub record_path_chain :
    CaseCollisionTracker → Bytes → Result ArtifactInstallError CaseCollisionTracker
unfolding sanitize_tree_path record_chain components
record_path_chain tracker path = do
  sanitized ← sanitize_tree_path path
  record_chain path (components sanitized) [] tracker
