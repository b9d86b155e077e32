-- ===== src/Fs/Redaction/Replace.antt =====
-- `replace_regex_with_limit` and `redact_text_outcome` of crates/omne-fs/src/redaction.rs, with the two
-- buffers that the passes write in turn.
use omne_runtime.Base.{
  ◌+◌, length, and_then, ◌-◌, leb, drop, take, if◌then◌else◌, List, ℕ, Option, Bytes, some, none,
  [], ◌∷◌, ◌++◌,
}
use omne_runtime.Fs.Redaction.{max_redacted_output_bytes, SecretRedactor, Patterns}
use omne_runtime.Text.{is_empty}

pub data RedactionOutcome : Type 0 where
  redacted_text : Bytes → RedactionOutcome
  output_limit_exceeded : RedactionOutcome

pub data RegexReplaceResult : Type 0 where
  no_match : RegexReplaceResult
  replaced : Bytes → RegexReplaceResult
  limit_exceeded : RegexReplaceResult

-- The output, unless the segment takes it over the limit. No length that fits in memory overflows.
unfoldable pub append_segment_with_limit : Bytes → Bytes → Option Bytes
append_segment_with_limit output segment =
    if leb (length output + length segment) max_redacted_output_bytes
    then some (output ++ segment)
    else none

-- `&input[last..start]`
abbrev pub slice : ℕ → ℕ → Bytes → Bytes
slice last start input = take (start - last) (drop last input)

-- The loop over the matches, from the end of the match before, and the rest of the input behind it.
unfoldable pub replace_matches : Bytes → Bytes → ℕ → List (ℕ × ℕ) → Bytes → Option Bytes
replace_matches input replacement last [] output =
    append_segment_with_limit output (drop last input)
replace_matches input replacement last ((start, end) ∷ matches) output =
    and_then (append_segment_with_limit output (slice last start input)) λ copied.
      and_then (append_segment_with_limit copied replacement)
        λ extended. replace_matches input replacement end matches extended

abbrev pub replace_result : Option Bytes → RegexReplaceResult
replace_result none = limit_exceeded
replace_result (some output) = replaced output

-- `String::clear`
abbrev pub clear : Bytes → Bytes
clear output = []

-- The last argument is what the written buffer holds from an earlier pass.
unfoldable pub replace_regex_with_limit : Bytes → List (ℕ × ℕ) → Bytes → Bytes → RegexReplaceResult
replace_regex_with_limit input [] replacement output = no_match
replace_regex_with_limit input (found ∷ matches) replacement output =
    replace_result (replace_matches input replacement 0 (found ∷ matches) (clear output))

pub data ActiveBuffer : Type 0 where
  first : ActiveBuffer
  second : ActiveBuffer

-- The buffers during the passes.
pub record Buffers : Type 0 where
  pub left : Bytes
  pub right : Bytes
  pub active : Option ActiveBuffer

-- What the next pass reads.
abbrev pub source_of : Bytes → Bytes → Bytes → Option ActiveBuffer → Bytes
source_of input left right none = input
source_of input left right (some first) = left
source_of input left right (some second) = right

-- What the buffer that the next pass writes holds before it.
abbrev pub target_of : Bytes → Bytes → Option ActiveBuffer → Bytes
target_of left right none = left
target_of left right (some first) = right
target_of left right (some second) = left

-- A pass writes the buffer that it does not read; the first pass writes the first.
abbrev pub write_buffer : Bytes → Bytes → Option ActiveBuffer → Bytes → Buffers
write_buffer left right none output = record { left = output; right = right; active = some first }
write_buffer left right (some first) output = record {
  left = left;
  right = output;
  active = some second;
}
write_buffer left right (some second) output = record {
  left = output;
  right = right;
  active = some first;
}

module _ (patterns : Patterns) (replacement input : Bytes) where
  unfoldable pub redact_passes : List patterns.Regex → Buffers → RedactionOutcome
  redact_passes [] b = redacted_text (source_of input b.left b.right b.active)
  redact_passes (regex ∷ regexes) b =
      let source = source_of input b.left b.right b.active in
      if is_empty source
      then redacted_text source
      else elim (replace_regex_with_limit source (patterns.find_iter regex source) replacement
          (target_of b.left b.right b.active)) [
            | no_match ↦ redact_passes regexes b
            | replaced output ↦ redact_passes regexes (write_buffer b.left b.right b.active output)
            | limit_exceeded ↦ output_limit_exceeded
          ]

-- `SecretRedactor::redact_text_outcome`
unfoldable pub redact_text_outcome :
    (patterns : Patterns) → SecretRedactor patterns → Bytes → RedactionOutcome
redact_text_outcome patterns redactor input =
    redact_passes patterns redactor.replacement input redactor.redact
      (record { left = []; right = []; active = none })
