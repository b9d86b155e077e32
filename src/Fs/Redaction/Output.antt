-- ===== src/Fs/Redaction/Output.antt =====
-- What a redaction gives: the text with each match replaced, within the limit.
use omne_runtime.Base.{
  not, Bool, sym, leb→le, ◌≤◌, ◌∙◌, ◌⊎◌, ap, length-append, arith, and_then, Bool-cases, length,
  leb, ◌≡◌, if◌then◌else◌, drop, ℕ, Option, List, Bytes, some, none, true, false, [], ◌∷◌, ◌++◌,
  refl, inl, inr,
}
use mathlib.Core.List.{append_assoc}
use omne_runtime.Fs.Redaction.{SecretRedactor, max_redacted_output_bytes, Patterns}
use omne_runtime.Fs.Redaction.Replace.{
  target_of, redact_text_outcome, replace_result, output_limit_exceeded, no_match, replaced,
  limit_exceeded, second, replace_regex_with_limit, first, write_buffer, source_of, slice,
  redacted_text, RedactionOutcome, Buffers, ActiveBuffer, append_segment_with_limit,
  replace_matches, redact_passes,
}
use omne_runtime.Text.{is_empty}

-- The replacement of all matches, without a limit.
abbrev pub replace_all : Bytes → Bytes → ℕ → List (ℕ × ℕ) → Bytes
replace_all input replacement last [] = drop last input
replace_all input replacement last ((start, end) ∷ matches) =
    slice last start input ++ (replacement ++ replace_all input replacement end matches)

-- A text within the limit.
abbrev pub limited : Bytes → Option Bytes
limited text = if leb (length text) max_redacted_output_bytes then some text else none

append_segment_with_limit_lem :
    (output segment : Bytes)
    → append_segment_with_limit output segment ≡ limited (output ++ segment)
unfolding append_segment_with_limit
append_segment_with_limit_lem output segment = rw (length-append output segment) refl

limited-append :
    (a b : Bytes) → leb (length a) max_redacted_output_bytes ≡ false → limited (a ++ b) ≡ none
limited-append a b h = ground (arith, length-append a b)

limited-eq_some : (a : Bytes) → leb (length a) max_redacted_output_bytes ≡ true → limited a ≡ some a
limited-eq_some a h = rw h refl

limited-eq_none : (a : Bytes) → leb (length a) max_redacted_output_bytes ≡ false → limited a ≡ none
limited-eq_none a h = rw h refl

-- One more segment, and what is then done with the output.
append_then :
    (output segment rest : Bytes) (next : Bytes → Option Bytes)
    → next (output ++ segment) ≡ limited ((output ++ segment) ++ rest)
    → and_then (append_segment_with_limit output segment) next
      ≡ limited (output ++ (segment ++ rest))
append_then output segment rest next h =
    let joined = append_assoc output segment rest in
    elim (Bool-cases (leb (length (output ++ segment)) max_redacted_output_bytes)) [
      | inl fits ↦
          let kept =
            append_segment_with_limit_lem output segment
            ∙ limited-eq_some (output ++ segment) fits in
          ap (λ m. and_then m next) kept ∙ h ∙ ap limited joined
      | inr over ↦
          let lost =
            append_segment_with_limit_lem output segment
            ∙ limited-eq_none (output ++ segment) over in
          ap (λ m. and_then m next) lost
          ∙ sym (limited-append (output ++ segment) rest over)
          ∙ ap limited joined
    ]

replace_matches_lem :
    (input replacement : Bytes) (last : ℕ) (matches : List (ℕ × ℕ)) (output : Bytes)
    → replace_matches input replacement last matches output
      ≡ limited (output ++ replace_all input replacement last matches)
unfolding replace_matches
replace_matches_lem input replacement last [] output =
    append_segment_with_limit_lem output (drop last input)
replace_matches_lem input replacement last ((start, end) ∷ matches) output =
    append_then output (slice last start input)
      (replacement ++ replace_all input replacement end matches) _
      (append_then (output ++ slice last start input) replacement
        (replace_all input replacement end matches) _
        (replace_matches_lem input replacement end matches
          ((output ++ slice last start input) ++ replacement)))

-- The replacement of the matches of a regular expression segment by segment, in a buffer that held
-- another text, gives the text with all matches replaced where that is within the limit, and else
-- reports that the limit is exceeded.
replace_regex_with_limit_lem :
    (input replacement output : Bytes) (found : ℕ × ℕ) (matches : List (ℕ × ℕ))
    → replace_regex_with_limit input (found ∷ matches) replacement output
      ≡ replace_result (limited (replace_all input replacement 0 (found ∷ matches)))
unfolding replace_regex_with_limit
replace_regex_with_limit_lem input replacement output found matches =
    ap replace_result (replace_matches_lem input replacement 0 (found ∷ matches) [])

-- The matches in a text that is searched: an empty text is not.
abbrev pub matches_in : (patterns : Patterns) → patterns.Regex → Bytes → List (ℕ × ℕ)
matches_in patterns regex [] = []
matches_in patterns regex (byte ∷ text) = patterns.find_iter regex (byte ∷ text)

-- A text that a replacement made and that is over the limit. A text without a match is none.
abbrev pub is_over : List (ℕ × ℕ) → Bytes → Bool
is_over [] text = false
is_over (found ∷ matches) text = not (leb (length text) max_redacted_output_bytes)

-- Each regular expression in order rewrites the whole text, with no buffer, no limit on the way and
-- no early end but the report of a text that is over the limit.
abbrev pub rewritten :
    (patterns : Patterns) → Bytes → List patterns.Regex → Bytes → RedactionOutcome
rewritten patterns replacement [] text = redacted_text text
rewritten patterns replacement (regex ∷ regexes) text =
    let matches = matches_in patterns regex text in
    let next = replace_all text replacement 0 matches in
    let rest = rewritten patterns replacement regexes next in
    if is_over matches next then output_limit_exceeded else rest

rewritten-empty :
    (patterns : Patterns) (replacement : Bytes) (regexes : List patterns.Regex)
    → rewritten patterns replacement regexes [] ≡ redacted_text []
rewritten-empty patterns replacement [] = refl
rewritten-empty patterns replacement (regex ∷ regexes) =
    rewritten-empty patterns replacement regexes

is_empty-eq_true : (text : Bytes) → is_empty text ≡ true → text ≡ []
is_empty-eq_true [] h = refl
is_empty-eq_true (byte ∷ text) h = cc

matches_in-filled :
    (patterns : Patterns) (regex : patterns.Regex) (text : Bytes)
    → is_empty text ≡ false
    → matches_in patterns regex text ≡ patterns.find_iter regex text
matches_in-filled patterns regex [] h = cc
matches_in-filled patterns regex (byte ∷ text) h = refl

replace_regex-limited :
    (input replacement output : Bytes) (found : ℕ × ℕ) (matches : List (ℕ × ℕ))
    (made : Option Bytes)
    → limited (replace_all input replacement 0 (found ∷ matches)) ≡ made
    → replace_regex_with_limit input (found ∷ matches) replacement output ≡ replace_result made
replace_regex-limited input replacement output found matches made h =
    replace_regex_with_limit_lem input replacement output found matches ∙ ap replace_result h

-- What follows one pass: with `after` for what the passes behind it give, it is that of the text with
-- all matches replaced, unless that is over the limit.
pass_lem :
    (input replacement output : Bytes) (matches : List (ℕ × ℕ)) (unchanged : RedactionOutcome)
    (next after : Bytes → RedactionOutcome)
    → unchanged ≡ after input
    → ((made : Bytes) → next made ≡ after made)
    → let whole = replace_all input replacement 0 matches in
      (elim (replace_regex_with_limit input matches replacement output) [
        | no_match ↦ unchanged
        | replaced made ↦ next made
        | limit_exceeded ↦ output_limit_exceeded
      ])
      ≡ (if is_over matches whole then output_limit_exceeded else after whole)
unfolding replace_regex_with_limit
pass_lem input replacement output [] unchanged next after k n = k
pass_lem input replacement output (found ∷ matches) unchanged next after k n =
    let whole = replace_all input replacement 0 (found ∷ matches) in
    let pass = replace_regex_with_limit input (found ∷ matches) replacement output in
    elim (Bool-cases (leb (length whole) max_redacted_output_bytes)) [
      | inl fits ↦
          let e =
            replace_regex-limited input replacement output found matches (some whole)
              (limited-eq_some whole fits) in
          rw (e, fits) (n whole)
      | inr over ↦
          let e =
            replace_regex-limited input replacement output found matches none
              (limited-eq_none whole over) in
          rw (e, over) refl
    ]

source_of-write_buffer :
    (input left right : Bytes) (active : Option ActiveBuffer) (output : Bytes)
    → let b = write_buffer left right active output in
      source_of input b.left b.right b.active ≡ output
source_of-write_buffer input left right none output = refl
source_of-write_buffer input left right (some first) output = refl
source_of-write_buffer input left right (some second) output = refl

redact_passes_lem :
    (patterns : Patterns) (replacement input : Bytes) (regexes : List patterns.Regex) (b : Buffers)
    → redact_passes patterns replacement input regexes b
      ≡ rewritten patterns replacement regexes (source_of input b.left b.right b.active)
unfolding redact_passes
redact_passes_lem patterns replacement input [] b = refl
redact_passes_lem patterns replacement input (regex ∷ regexes) b =
    let source = source_of input b.left b.right b.active in
    let after = rewritten patterns replacement regexes in
    elim (Bool-cases (is_empty source)) [
      | inl blank ↦
          rw (is_empty-eq_true source blank) (sym (rewritten-empty patterns replacement regexes))
      | inr filled ↦
          rw (filled, matches_in-filled patterns regex source filled)
            (pass_lem source replacement (target_of b.left b.right b.active)
              (patterns.find_iter regex source) (redact_passes patterns replacement input regexes b)
              (λ made.
                redact_passes patterns replacement input regexes
                  (write_buffer b.left b.right b.active made))
              after (redact_passes_lem patterns replacement input regexes b)
              (λ made.
                redact_passes_lem patterns replacement input regexes
                  (write_buffer b.left b.right b.active made)
                ∙ ap after (source_of-write_buffer input b.left b.right b.active made)))
    ]

-- A redaction, which writes two reused buffers by turns, segment by segment within the limit, gives
-- what the regular expressions make of the whole text in order: each replaces all its matches and
-- keeps what lies between and behind them, an empty text is not searched and stays empty, and the
-- first text that replacements make with more bytes than permitted ends it with the report of that.
pub redact_text_outcome_lem :
    (patterns : Patterns) (redactor : SecretRedactor patterns) (input : Bytes)
    → redact_text_outcome patterns redactor input
      ≡ rewritten patterns redactor.replacement redactor.redact input
unfolding redact_text_outcome
redact_text_outcome_lem patterns redactor input =
    redact_passes_lem patterns redactor.replacement input redactor.redact
      (record { left = []; right = []; active = none })

is_over-eq_false :
    (text replacement : Bytes) (matches : List (ℕ × ℕ))
    → is_over matches (replace_all text replacement 0 matches) ≡ false
    → (replace_all text replacement 0 matches ≡ text)
      ⊎ (length (replace_all text replacement 0 matches) ≤ max_redacted_output_bytes)
is_over-eq_false text replacement [] h = inl refl
is_over-eq_false text replacement (found ∷ matches) h = inr (leb→le _ _ (ground arith))

rewritten-le :
    (patterns : Patterns) (replacement : Bytes) (regexes : List patterns.Regex)
    (text output : Bytes)
    → rewritten patterns replacement regexes text ≡ redacted_text output
    → (output ≡ text) ⊎ (length output ≤ max_redacted_output_bytes)
rewritten-le patterns replacement [] text output h = inl (cc)
rewritten-le patterns replacement (regex ∷ regexes) text output h =
    let matches = matches_in patterns regex text in
    let next = replace_all text replacement 0 matches in
    elim (Bool-cases (is_over matches next)) [
      | inl over ↦ absurd (ground arith)
      | inr kept ↦ elim (rewritten-le patterns replacement regexes next output (ground arith)) [
        | inl same ↦ elim (is_over-eq_false text replacement matches kept) [
          | inl unchanged ↦ inl (same ∙ unchanged)
          | inr within ↦ inr (rw same within)
        ]
        | inr within ↦ inr within
      ]
    ]

-- A text that a redaction gives is the input itself or has at most the permitted number of bytes.
pub redact_text_outcome_bounds :
    (patterns : Patterns) (redactor : SecretRedactor patterns) (input output : Bytes)
    → redact_text_outcome patterns redactor input ≡ redacted_text output
    → (output ≡ input) ⊎ (length output ≤ max_redacted_output_bytes)
redact_text_outcome_bounds patterns redactor input output h =
    rewritten-le patterns redactor.replacement redactor.redact input output
      (sym (redact_text_outcome_lem patterns redactor input) ∙ h)
