-- ===== src/Fs/Context.antt =====
-- crates/omne-fs/src/ops/context.rs and the context of crates/omne-fs/src/ops/mod.rs, as they are
-- built on Unix with the features `glob` and `grep`. The file system, which the code asks through
-- `std::fs`, is a parameter: its state while one operation runs.
pub mod Roots
use omne_runtime.Base.{
  ◌||◌, text_eq, Bool, ℕ, Text, Option, List, Bytes, String, Result, ok_or, not, map_err, ensure,
  codes, if◌then◌else◌, some, none, true, false, [], ◌∷◌, ◌++◌, err, ok, ◌>>=◌, ◌>>◌, leb, any,
}
use omne_runtime.Base.Order.{sort}
use omne_runtime.Fs.Error.{
  policy_rule, secret_path_denied, risk_tag, root_not_found, not_permitted, invalid_policy,
  error_code, FsResult, FsIoError, Error,
}
use omne_runtime.Fs.Paths.{paths_equal_case_insensitive}
use omne_runtime.Fs.Policy.{
  full_access, workspace_write, validate_structural, read_only, SandboxPolicy, WriteScope, Root,
}
use omne_runtime.Fs.Redaction.{from_rules, SecretRedactor, is_path_denied, Patterns}
use omne_runtime.Fs.Traversal.{compile_traversal_skip_globs}
use omne_runtime.FsPath.{path_starts_with}
use omne_runtime.FsPath.Order.{path_le}

-- `Path::canonicalize`, `fs::metadata` by whether it is a directory, `fs::symlink_metadata` by whether
-- it is a symbolic link, and `fs::read_link`
pub record FileSystem : Type 0 where
  pub canonicalize : Bytes → Result FsIoError Bytes
  pub is_dir : Bytes → Result FsIoError Bool
  pub is_symlink : Bytes → Result FsIoError Bool
  pub read_link : Bytes → Result FsIoError Bytes

pub record RootRuntime : Type 0 where
  pub declared_path : Bytes
  pub canonical_path : Bytes
  pub write_scope : WriteScope

pub record CanonicalRoot : Type 0 where
  pub id : Text
  pub declared_path : Bytes
  pub canonical_path : Bytes
  pub write_scope : WriteScope

abbrev pub canonical_paths_overlap : Bytes → Bytes → Bool
canonical_paths_overlap a b = path_starts_with a b || path_starts_with b a

-- The two tests of an adjacent pair of `validate_canonical_roots_non_overlapping`
unfoldable pub validate_pair : CanonicalRoot → CanonicalRoot → FsResult (Unit {0})
validate_pair a b = do
  let a_path = a.canonical_path
  let b_path = b.canonical_path
  ensure (not (paths_equal_case_insensitive a_path b_path)) (
      invalid_policy (
        codes "root "
        ++ a.id
        ++ codes " resolves to the same canonical directory as root "
        ++ b.id))
  ensure (not (canonical_paths_overlap a_path b_path))
      (invalid_policy (codes "root " ++ a.id ++ codes " overlaps with root " ++ b.id))

unfoldable pub validate_pairs : List CanonicalRoot → FsResult (Unit {0})
validate_pairs [] = ok tt
validate_pairs (a ∷ []) = ok tt
validate_pairs (a ∷ b ∷ roots) = validate_pair a b >> validate_pairs (b ∷ roots)

abbrev pub root_le : CanonicalRoot → CanonicalRoot → Bool
root_le a b = path_le a.canonical_path b.canonical_path

-- Fewer than two roots have no pair.
unfoldable pub validate_canonical_roots_non_overlapping : List CanonicalRoot → FsResult (Unit {0})
validate_canonical_roots_non_overlapping roots = validate_pairs (sort root_le roots)

-- One turn of the loop over the policy's roots.
unfoldable pub canonical_root_of : FileSystem → Root → FsResult CanonicalRoot
canonical_root_of fs root = do
  canonical ←
      map_err (fs.canonicalize root.path)
        (λ e. invalid_policy (codes "failed to canonicalize root " ++ root.id))
  is_dir ←
      map_err (fs.is_dir canonical) (λ e. invalid_policy (codes "failed to stat root " ++ root.id))
  ensure is_dir (invalid_policy (codes "root " ++ root.id ++ codes " is not a directory"))
  ok (record {
    id = root.id;
    declared_path = root.path;
    canonical_path = canonical;
    write_scope = root.write_scope;
  })

unfoldable pub canonical_roots_of : FileSystem → List Root → FsResult (List CanonicalRoot)
canonical_roots_of fs [] = ok []
canonical_roots_of fs (root ∷ roots) = do
  canonical ← canonical_root_of fs root
  rest ← canonical_roots_of fs roots
  ok (canonical ∷ rest)

-- The loop of `HashMap::insert`; the map is its insertions, the last one in front.
unfoldable pub insert_roots :
    List (Text × RootRuntime) → List CanonicalRoot → List (Text × RootRuntime)
insert_roots roots [] = roots
insert_roots roots (root ∷ rest) =
    let runtime : RootRuntime = record {
      declared_path = root.declared_path;
      canonical_path = root.canonical_path;
      write_scope = root.write_scope;
    } in
    insert_roots ((root.id, runtime) ∷ roots) rest

-- `HashMap::get`
unfoldable pub find_runtime : Text → List (Text × RootRuntime) → Option RootRuntime
find_runtime id [] = none
find_runtime id ((root_id, runtime) ∷ roots) =
    let rest = find_runtime id roots in if text_eq root_id id then some runtime else rest

-- `DecisionTrace` and `decision_trace_for_error`
pub record DecisionTrace : Type 0 where
  pub reason_code : String
  pub risk_tag : String
  pub policy_rule : Option String

abbrev pub decision_trace_for_error : Error → DecisionTrace
decision_trace_for_error error = record {
  reason_code = error_code error;
  risk_tag = risk_tag error;
  policy_rule = policy_rule error;
}

unfoldable pub ensure_policy_permission : Bool → String → FsResult (Unit {0})
ensure_policy_permission enabled op =
    ensure enabled (not_permitted (codes op ++ codes " is disabled by policy"))

abbrev pub is_writable : WriteScope → Bool
is_writable read_only = false
is_writable workspace_write = true
is_writable full_access = true

module _ (patterns : Patterns) where
  pub record Context : Type 0 where
    pub policy : SandboxPolicy
    pub redactor : SecretRedactor patterns
    pub roots : List (Text × RootRuntime)
    pub traversal_skip_globs : Option patterns.GlobSet

  -- `Context::build_from_policy`
  unfoldable pub build_from_policy : FileSystem → SandboxPolicy → FsResult Context
  build_from_policy fs policy = do
    validate_structural policy
    redactor ← from_rules patterns policy.secrets
    roots ← canonical_roots_of fs policy.roots
    validate_canonical_roots_non_overlapping roots
    skip ← compile_traversal_skip_globs patterns policy.skip_globs
    ok (record {
      policy = policy;
      redactor = redactor;
      roots = insert_roots [] roots;
      traversal_skip_globs = skip;
    })

  unfoldable pub root_runtime : Context → Text → FsResult RootRuntime
  root_runtime ctx root_id = ok_or (find_runtime root_id ctx.roots) (root_not_found root_id)

  unfoldable pub canonical_root : Context → Text → FsResult Bytes
  canonical_root ctx root_id = do root ← root_runtime ctx root_id; ok root.canonical_path

  unfoldable pub declared_root : Context → Text → FsResult Bytes
  declared_root ctx root_id = do root ← root_runtime ctx root_id; ok root.declared_path

  unfoldable pub is_traversal_path_skipped : Context → Bytes → Bool
  is_traversal_path_skipped ctx relative = elim ctx.traversal_skip_globs [
    | none ↦ false
    | some skip ↦ patterns.is_match skip relative
  ]

  unfoldable pub reject_secret_path : Context → Bytes → FsResult Bytes
  reject_secret_path ctx path = do
    ensure (not (is_path_denied patterns ctx.redactor path)) (secret_path_denied path)
    ok path

  unfoldable pub ensure_can_write : Context → Text → String → FsResult (Unit {0})
  ensure_can_write ctx root_id op = do
    root ← root_runtime ctx root_id
    ensure (is_writable root.write_scope) (
        not_permitted
          (codes op ++ codes " is not allowed: root " ++ root_id ++ codes " is read_only"))

  unfoldable pub ensure_write_operation_allowed :
      Context → Text → Bool → String → FsResult (Unit {0})
  ensure_write_operation_allowed ctx root_id enabled op =
      ensure_policy_permission enabled op >> ensure_can_write ctx root_id op
