-- ===== src/Fs/Traversal.antt =====
-- crates/omne-fs/src/ops/traversal/compile.rs: the glob patterns of a traversal, compiled, and the
-- directory that a pattern's literal segments name.
use omne_runtime.Base.{
  text_eq, ◌||◌, ◌+◌, ◌&&◌, length, ◌==◌, Bool, ℕ, Text, Option, List, Bytes, String, Result, ok_or,
  not, map_err, ensure, codes, ◌*◌, if◌then◌else◌, some, none, [], ◌∷◌, ◌++◌, err, ok, ◌>>=◌, ◌>>◌,
  leb, any,
}
use omne_runtime.Fs.Error.{invalid_policy, invalid_path, checked, Error, FsResult}
use omne_runtime.Fs.Paths.{validate_root_relative_glob_pattern, normalize_glob_pattern_for_matching}
use omne_runtime.Fs.Redaction.{max_glob_pattern_bytes, byte_length, Patterns}
use omne_runtime.FsPath.{push}
use omne_runtime.Text.{trim, as_bytes, split, is_empty}

abbrev pub max_traversal_skip_globs : ℕ
max_traversal_skip_globs = 512

abbrev pub max_traversal_skip_globs_total_bytes : ℕ
max_traversal_skip_globs_total_bytes = 64 * 1024

unfoldable pub accumulate_skip_glob_pattern_bytes : ℕ → ℕ → FsResult ℕ
accumulate_skip_glob_pattern_bytes total pattern_len = do
  sum ←
      ok_or (checked (total + pattern_len)) (
        invalid_policy (codes "invalid traversal.skip_globs: total pattern bytes overflowed usize"))
  ensure (leb sum max_traversal_skip_globs_total_bytes)
      (invalid_policy (codes "invalid traversal.skip_globs: total pattern bytes too large"))
  ok sum

unfoldable pub normalize_and_validate_root_relative_glob_pattern : Text → Result String Text
normalize_and_validate_root_relative_glob_pattern text = do
  ensure (leb (byte_length text) max_glob_pattern_bytes) "glob pattern too long"
  ensure (not (is_empty (trim text))) "glob pattern must not be empty"
  let normalized = normalize_glob_pattern_for_matching text
  validate_root_relative_glob_pattern normalized
  ok normalized

unfoldable pub is_segment_glob_meta_byte : ℕ → Bool
is_segment_glob_meta_byte byte =
    any (λ meta. byte == meta) (b'*' ∷ b'?' ∷ b'[' ∷ b']' ∷ b'{' ∷ b'}' ∷ b'\\' ∷ [])

unfoldable pub segment_is_strict_literal : Text → Bool
segment_is_strict_literal segment =
    not (is_empty segment) && not (any is_segment_glob_meta_byte (as_bytes segment))

-- The loop of `collect_literal_traversal_prefix`; `reject_unsafe_segment` rejects nothing on Unix.
unfoldable pub collect_literals : Bytes → List Text → Bytes
collect_literals out [] = out
collect_literals out (segment ∷ segments) =
    let skipped = collect_literals out segments in
    let pushed = collect_literals (push out (as_bytes segment)) segments in
    if is_empty segment || text_eq segment (b'.' ∷ [])
    then skipped
    else if segment_is_strict_literal segment
    then pushed
    else out

unfoldable pub collect_literal_traversal_prefix : Text → Option Bytes
collect_literal_traversal_prefix text =
    let out = collect_literals [] (split b'/' text) in if is_empty out then none else some out

unfoldable pub derive_safe_traversal_prefix : Text → Option Bytes
derive_safe_traversal_prefix text = elim (normalize_and_validate_root_relative_glob_pattern text) [
  | ok normalized ↦ collect_literal_traversal_prefix normalized
  | err message ↦ none
]

module _ (patterns : Patterns) where
  -- The callers' `invalid_err` gives the error, without its message.
  unfoldable pub compile_validated_glob : Text → Error → FsResult patterns.Glob
  compile_validated_glob text invalid_err = do
    normalized ←
        map_err (normalize_and_validate_root_relative_glob_pattern text) (λ message. invalid_err)
    ok_or (patterns.build_glob normalized) invalid_err

  unfoldable pub compile_glob : Text → FsResult patterns.GlobSet
  compile_glob text = do
    glob ← compile_validated_glob text (invalid_path "invalid glob pattern")
    ok_or (patterns.build_set (glob ∷ [])) (invalid_path "invalid glob pattern")

  unfoldable pub compile_skip_globs :
      ℕ × List patterns.Glob → List Text → FsResult (ℕ × List patterns.Glob)
  compile_skip_globs state [] = ok state
  compile_skip_globs (total, globs) (text ∷ rest) = do
    total' ← accumulate_skip_glob_pattern_bytes total (byte_length text)
    glob ← compile_validated_glob text (invalid_policy (codes "invalid traversal.skip_globs glob"))
    compile_skip_globs (total', globs ++ glob ∷ []) rest

  unfoldable pub compile_traversal_skip_globs : List Text → FsResult (Option patterns.GlobSet)
  compile_traversal_skip_globs [] = ok none
  compile_traversal_skip_globs (text ∷ rest) = do
    ensure (leb (length (text ∷ rest)) max_traversal_skip_globs)
        (invalid_policy (codes "invalid traversal.skip_globs: too many patterns"))
    (total, globs) ← compile_skip_globs (0, []) (text ∷ rest)
    set ← ok_or (patterns.build_set globs) (invalid_policy (codes "invalid traversal.skip_globs"))
    ok (some set)
