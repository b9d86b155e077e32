-- ===== src/Fs/Redaction.antt =====
-- crates/omne-fs/src/redaction.rs: the secret rules, compiled, and what they deny and redact. The
-- crates `globset` and `regex` are parameters. The text that is redacted is its UTF-8 bytes, by which
-- `regex` counts.
pub mod Budget
pub mod Replace
pub mod Output
use omne_runtime.Base.{
  ◌||◌, ◌+◌, leb, any, ok_or, not, map_err, ensure, codes, ◌*◌, length, if◌then◌else◌, Bool, ℕ,
  Text, Option, List, Bytes, some, none, true, false, [], ◌∷◌, ◌++◌, err, ok, ◌>>=◌, ◌>>◌,
}
use omne_runtime.Fs.Error.{invalid_policy, checked, FsResult}
use omne_runtime.Fs.Paths.{
  normalize_path_lexical, is_parent_dir, normalize_glob_pattern_for_matching, is_cur_dir,
  validate_root_relative_glob_pattern,
}
use omne_runtime.Fs.Policy.{SecretRules}
use omne_runtime.FsPath.{components, is_absolute}
use omne_runtime.FsPath.Laws.{is_root_dir}
use omne_runtime.Text.{trim, is_empty, as_bytes, strip_suffix}

pub record Patterns : Type 1 where
  pub Glob : Type 0
  pub GlobSet : Type 0
  pub Regex : Type 0
  -- `GlobBuilder::new(pattern).literal_separator(true).build()`
  pub build_glob : Text → Option Glob
  pub build_set : List Glob → Option GlobSet
  pub is_match : GlobSet → Bytes → Bool
  pub new_regex : Text → Option Regex
  -- `find_iter`: the start and the end of each match
  pub find_iter : Regex → Bytes → List (ℕ × ℕ)

abbrev pub max_deny_globs : ℕ
max_deny_globs = 512

abbrev pub max_glob_pattern_bytes : ℕ
max_glob_pattern_bytes = 4 * 1024

abbrev pub max_redact_regexes : ℕ
max_redact_regexes = 128

abbrev pub max_redact_regex_bytes : ℕ
max_redact_regex_bytes = 8 * 1024

abbrev pub max_rule_patterns_total_bytes : ℕ
max_rule_patterns_total_bytes = 64 * 1024

abbrev pub max_replacement_bytes : ℕ
max_replacement_bytes = 1024

abbrev pub max_redacted_output_bytes : ℕ
max_redacted_output_bytes = 8 * 1024 * 1024

-- `pattern.len()`
abbrev pub byte_length : Text → ℕ
byte_length pattern = length (as_bytes pattern)

unfoldable pub accumulate_pattern_bytes : ℕ → ℕ → FsResult ℕ
accumulate_pattern_bytes total pattern_bytes = do
  sum ←
      ok_or (checked (total + pattern_bytes))
        (invalid_policy (codes "invalid secrets: total deny/redact pattern bytes overflowed usize"))
  ensure (leb sum max_rule_patterns_total_bytes)
      (invalid_policy (codes "invalid secrets: total deny/redact pattern bytes too large"))
  ok sum

-- The path that `foo/**` denies besides its content: `foo`.
unfoldable pub directory_root : Text → Option Text
directory_root normalized = elim (strip_suffix (codes "/**") normalized) [
  | none ↦ none
  | some root ↦ if is_empty root then none else some root
]

-- `Path::components` has no root and no `..`.
unfoldable pub is_root_relative : Bytes → Bool
is_root_relative path = not (any (λ c. is_root_dir c || is_parent_dir c) (components path))

-- `normalize_relative_path`
unfoldable pub normalize_relative_path : Bytes → Bytes
normalize_relative_path path =
    if is_absolute path
    then path
    else if any (λ c. is_cur_dir c || is_parent_dir c) (components path)
    then normalize_path_lexical path
    else path

module _ (patterns : Patterns) where
  pub record SecretRedactor : Type 0 where
    pub deny : patterns.GlobSet
    pub redact : List patterns.Regex
    pub replacement : Bytes

  unfoldable pub compile_and_add_deny_glob :
      List patterns.Glob → Text → FsResult (List patterns.Glob)
  compile_and_add_deny_glob globs normalized_pattern = do
    map_err (validate_root_relative_glob_pattern normalized_pattern)
        (λ message. invalid_policy (codes "invalid deny glob: " ++ codes message))
    glob ←
        ok_or (patterns.build_glob normalized_pattern) (invalid_policy (codes "invalid deny glob"))
    ok (globs ++ glob ∷ [])

  abbrev pub add_directory_root :
      Option Text → ℕ × List patterns.Glob → FsResult (ℕ × List patterns.Glob)
  add_directory_root none state = ok state
  add_directory_root (some root) (total, globs) = do
    total' ← accumulate_pattern_bytes total (byte_length root)
    globs' ← compile_and_add_deny_glob globs root
    ok (total', globs')

  -- One turn of the first loop of `from_rules`.
  unfoldable pub add_deny_glob : ℕ × List patterns.Glob → Text → FsResult (ℕ × List patterns.Glob)
  add_deny_glob (total, globs) pattern_text = do
    ensure (not (is_empty (trim pattern_text)))
        (invalid_policy (codes "invalid secrets.deny_globs glob: glob pattern must not be empty"))
    ensure (leb (byte_length pattern_text) max_glob_pattern_bytes)
        (invalid_policy (codes "invalid secrets.deny_globs: glob pattern too long"))
    total' ← accumulate_pattern_bytes total (byte_length pattern_text)
    let normalized = normalize_glob_pattern_for_matching pattern_text
    globs' ← compile_and_add_deny_glob globs normalized
    add_directory_root (directory_root normalized) (total', globs')

  unfoldable pub add_deny_globs :
      ℕ × List patterns.Glob → List Text → FsResult (ℕ × List patterns.Glob)
  add_deny_globs state [] = ok state
  add_deny_globs state (pattern_text ∷ rest) =
      add_deny_glob state pattern_text >>= λ state'. add_deny_globs state' rest

  -- One turn of the second loop.
  unfoldable pub add_regex : ℕ × List patterns.Regex → Text → FsResult (ℕ × List patterns.Regex)
  add_regex (total, regexes) pattern_text = do
    ensure (not (is_empty pattern_text)) (
        invalid_policy
          (codes "invalid secrets.redact_regexes regex \"\": empty patterns are not allowed"))
    ensure (leb (byte_length pattern_text) max_redact_regex_bytes)
        (invalid_policy (codes "invalid secrets.redact_regexes: regex pattern too long"))
    total' ← accumulate_pattern_bytes total (byte_length pattern_text)
    regex ←
        ok_or (patterns.new_regex pattern_text)
          (invalid_policy (codes "invalid secrets.redact_regexes regex"))
    ok (total', regexes ++ regex ∷ [])

  unfoldable pub add_regexes :
      ℕ × List patterns.Regex → List Text → FsResult (ℕ × List patterns.Regex)
  add_regexes state [] = ok state
  add_regexes state (pattern_text ∷ rest) =
      add_regex state pattern_text >>= λ state'. add_regexes state' rest

  -- `SecretRedactor::from_rules`
  unfoldable pub from_rules : SecretRules → FsResult SecretRedactor
  from_rules rules = do
    ensure (leb (length rules.deny_globs) max_deny_globs)
        (invalid_policy (codes "invalid secrets.deny_globs: too many patterns"))
    ensure (leb (length rules.redact_regexes) max_redact_regexes)
        (invalid_policy (codes "invalid secrets.redact_regexes: too many patterns"))
    ensure (leb (byte_length rules.replacement) max_replacement_bytes)
        (invalid_policy (codes "invalid secrets.replacement: too long"))
    (total, globs) ← add_deny_globs (0, []) rules.deny_globs
    deny ← ok_or (patterns.build_set globs) (invalid_policy (codes "invalid deny globs"))
    (total', redact) ← add_regexes (total, []) rules.redact_regexes
    ok (record { deny = deny; redact = redact; replacement = as_bytes rules.replacement })

  -- `SecretRedactor::is_path_denied`
  unfoldable pub is_path_denied : SecretRedactor → Bytes → Bool
  is_path_denied redactor relative =
      if is_root_relative relative
      then patterns.is_match redactor.deny (normalize_relative_path relative)
      else true
