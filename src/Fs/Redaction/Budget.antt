-- ===== src/Fs/Redaction/Budget.antt =====
-- The budget of the secret rules, and paths that are denied whatever the patterns are.
use omne_runtime.Base.{
  length-append, Option-cases, Bytes, length, Result-cases, arith, ◌≤◌, ◌+◌, ◌≡◌, ℕ, Text, Option,
  List, some, none, true, false, [], ◌∷◌, ◌++◌, ok, refl, inl, inr,
}
use omne_runtime.Fs.Paths.{normalize_glob_pattern_for_matching}
use omne_runtime.Fs.Policy.{SecretRules}
use omne_runtime.Fs.Redaction.{
  max_replacement_bytes, max_redact_regexes, is_root_relative, max_deny_globs, directory_root,
  compile_and_add_deny_glob, SecretRedactor, is_path_denied, from_rules, add_regexes, add_regex,
  add_deny_globs, max_rule_patterns_total_bytes, byte_length, add_directory_root, add_deny_glob,
  accumulate_pattern_bytes, Patterns,
}

-- The bytes of a list of patterns.
abbrev pub total_bytes : List Text → ℕ
total_bytes [] = 0
total_bytes (pattern_text ∷ rest) = byte_length pattern_text + total_bytes rest

accumulate_lem :
    (total n sum : ℕ)
    → accumulate_pattern_bytes total n ≡ ok sum
    → (sum ≡ total + n) × (sum ≤ max_rule_patterns_total_bytes)
unfolding accumulate_pattern_bytes
accumulate_lem total n sum h = (ground arith, ground arith)

module _ (patterns : Patterns) where
  add_directory_root-le :
      (root : Option Text) (total : ℕ) (globs : List patterns.Glob) (total' : ℕ)
      (globs' : List patterns.Glob)
      → add_directory_root patterns root (total, globs) ≡ ok (total', globs')
      → total ≤ max_rule_patterns_total_bytes
      → (total ≤ total') × (total' ≤ max_rule_patterns_total_bytes)
  add_directory_root-le none total globs total' globs' h b = (ground arith, ground arith)
  add_directory_root-le (some root) total globs total' globs' h b =
      elim (Result-cases (accumulate_pattern_bytes total (byte_length root))) [
        | inr (e, q) ↦ absurd (ground arith)
        | inl (sum, q) ↦
            let (same, bound) = accumulate_lem total (byte_length root) sum q in
            let e : sum ≡ total' = ground arith in (omega (arith, same, e), omega (arith, bound, e))
      ]

  add_deny_glob-le :
      (total : ℕ) (globs : List patterns.Glob) (pattern_text : Text) (total' : ℕ)
      (globs' : List patterns.Glob)
      → add_deny_glob patterns (total, globs) pattern_text ≡ ok (total', globs')
      → (total + byte_length pattern_text ≤ total') × (total' ≤ max_rule_patterns_total_bytes)
  unfolding add_deny_glob
  add_deny_glob-le total globs pattern_text total' globs' h =
      let normalized = normalize_glob_pattern_for_matching pattern_text in
      elim (Result-cases (accumulate_pattern_bytes total (byte_length pattern_text))) [
        | inr (e, q) ↦ absurd (ground arith)
        | inl (sum, q) ↦ elim (Result-cases (compile_and_add_deny_glob patterns globs normalized)) [
          | inr (e, g) ↦ absurd (ground arith)
          | inl (added, g) ↦
              let rooted : add_directory_root patterns (directory_root normalized) (sum, added)
                  ≡ ok (total', globs') =
                ground arith in
              let (same, bound) = accumulate_lem total (byte_length pattern_text) sum q in
              let (grows, within) =
                add_directory_root-le (directory_root normalized) sum added total' globs' rooted
                  bound in
              (omega (arith, same, grows), within)
        ]
      ]

  add_deny_globs-le :
      (texts : List Text) (total : ℕ) (globs : List patterns.Glob) (total' : ℕ)
      (globs' : List patterns.Glob)
      → add_deny_globs patterns (total, globs) texts ≡ ok (total', globs')
      → total ≤ max_rule_patterns_total_bytes
      → (total + total_bytes texts ≤ total') × (total' ≤ max_rule_patterns_total_bytes)
  unfolding add_deny_globs
  add_deny_globs-le [] total globs total' globs' h b =
      let e : total ≡ total' = ground arith in (omega (arith, e), omega (arith, e, b))
  add_deny_globs-le (t ∷ texts) total globs total' globs' h b =
      elim (Result-cases (add_deny_glob patterns (total, globs) t)) [
        | inr (e, q) ↦ absurd (ground arith)
        | inl ((sum, added), q) ↦
            let (one, within) = add_deny_glob-le total globs t sum added q in
            let (all_rest, end) =
              add_deny_globs-le texts sum added total' globs' (ground arith) within in
            (omega (arith, one, all_rest), end)
      ]

  add_regex-le :
      (total : ℕ) (regexes : List patterns.Regex) (t : Text) (total' : ℕ)
      (regexes' : List patterns.Regex)
      → add_regex patterns (total, regexes) t ≡ ok (total', regexes')
      → (total + byte_length t ≡ total')
        × (total' ≤ max_rule_patterns_total_bytes)
        × (length regexes' ≡ length regexes + 1)
  unfolding add_regex
  add_regex-le total regexes t total' regexes' h =
      elim (Result-cases (accumulate_pattern_bytes total (byte_length t))) [
        | inr (e, q) ↦ absurd (ground arith)
        | inl (sum, q) ↦ elim (Option-cases (patterns.new_regex t)) [
          | inl g ↦ absurd (ground arith)
          | inr (regex, g) ↦
              let (same, bound) = accumulate_lem total (byte_length t) sum q in
              let e : sum ≡ total' = ground arith in
              let longer : regexes' ≡ regexes ++ regex ∷ [] = ground arith in
              (
                omega (arith, same, e),
                omega (arith, bound, e),
                rw longer (omega (arith, length-append regexes (regex ∷ []))),
              )
        ]
      ]

  add_regexes-le :
      (texts : List Text) (total : ℕ) (regexes : List patterns.Regex) (total' : ℕ)
      (regexes' : List patterns.Regex)
      → add_regexes patterns (total, regexes) texts ≡ ok (total', regexes')
      → total ≤ max_rule_patterns_total_bytes
      → (total + total_bytes texts ≡ total')
        × (total' ≤ max_rule_patterns_total_bytes)
        × (length regexes' ≡ length regexes + length texts)
  unfolding add_regexes
  add_regexes-le [] total regexes total' regexes' h b =
      let e : total ≡ total' = ground arith in
      let same : regexes ≡ regexes' = ground arith in
      (omega (arith, e), omega (arith, e, b), rw (← same) (omega arith))
  add_regexes-le (t ∷ texts) total regexes total' regexes' h b =
      elim (Result-cases (add_regex patterns (total, regexes) t)) [
        | inr (e, q) ↦ absurd (ground arith)
        | inl ((sum, added), q) ↦
            let (one, within, longer) = add_regex-le total regexes t sum added q in
            let (all_rest, end, count) =
              add_regexes-le texts sum added total' regexes' (ground arith) within in
            (omega (arith, one, all_rest), end, omega (arith, longer, count))
      ]

  -- What a compiled redactor says of its rules.
  pub record IsWithinBudget (rules : SecretRules) (redactor : SecretRedactor patterns)
      : Type 0 where
    pub deny_count : length rules.deny_globs ≤ max_deny_globs
    pub redact_count : length rules.redact_regexes ≤ max_redact_regexes
    pub replacement_size : length redactor.replacement ≤ max_replacement_bytes
    pub pattern_bytes :
        total_bytes rules.deny_globs + total_bytes rules.redact_regexes
        ≤ max_rule_patterns_total_bytes
    pub each_compiled : length redactor.redact ≡ length rules.redact_regexes

  pub from_rules-IsWithinBudget :
      (rules : SecretRules) (redactor : SecretRedactor patterns)
      → from_rules patterns rules ≡ ok redactor
      → IsWithinBudget rules redactor
  unfolding from_rules
  from_rules-IsWithinBudget rules redactor h =
      elim (Result-cases (add_deny_globs patterns (0, []) rules.deny_globs)) [
        | inr (e, q) ↦ absurd (ground arith)
        | inl ((total, globs), q) ↦
            elim (Result-cases (add_regexes patterns (total, []) rules.redact_regexes)) [
              | inr (e, g) ↦ absurd (ground arith)
              | inl ((total', regexes), g) ↦
                  let (denied, within) =
                    add_deny_globs-le rules.deny_globs 0 [] total globs q (omega arith) in
                  let (added, end, count) =
                    add_regexes-le rules.redact_regexes total [] total' regexes g within in
                  record {
                    deny_count = ground arith;
                    redact_count = ground arith;
                    replacement_size = ground arith;
                    pattern_bytes = omega (arith, denied, added, end);
                    each_compiled = ground (arith, count);
                  }
            ]
      ]

  -- A path that is not relative to the root, or that has `..`, is denied, whatever the patterns are.
  pub is_path_denied-not_relative :
      (redactor : SecretRedactor patterns) (path : Bytes)
      → is_root_relative path ≡ false
      → is_path_denied patterns redactor path ≡ true
  unfolding is_path_denied
  is_path_denied-not_relative redactor path h = rw h refl
