-- ===== src/Fs/Edit.antt =====
-- crates/omne-fs/src/ops/edit.rs: the lines of a text replaced by others. A text is its UTF-8 bytes,
-- by which the code counts; the two bytes that end a line are ASCII. Reading and writing the file
-- (ops/io.rs) are parameters.
pub mod Lines
pub mod Scanning
pub mod Range
pub mod Content
use omne_runtime.Base.{
  drop, ◌&&◌, text_eq, ◌||◌, length, Bool, ℕ, Text, Option, List, Bytes, String, Result, ok_or, not,
  map_err, ensure, codes, ◌==◌, if◌then◌else◌, some, none, true, false, [], ◌∷◌, ◌++◌, err, ok,
  ◌>>=◌, ◌>>◌, leb, ltb, any, ◌+◌, ◌-◌,
}
use omne_runtime.Fs.Context.{ensure_write_operation_allowed, Context, FileSystem}
use omne_runtime.Fs.Error.{file_too_large, patch, invalid_path, checked, FsResult, Error}
use omne_runtime.Fs.Redaction.{Patterns}
use omne_runtime.Fs.Redaction.Replace.{slice}
use omne_runtime.Fs.Resolve.{canonical_path_in_root}
use omne_runtime.Text.{is_empty}

abbrev pub lf : ℕ
lf = b'\n'

abbrev pub cr : ℕ
cr = b'\r'

-- `str::ends_with`
unfoldable pub ends_with : Bytes → Bytes → Bool
ends_with suffix text =
    leb (length suffix) (length text) && text_eq (drop (length text - length suffix) text) suffix

unfoldable pub line_ending : Bytes → Bytes
line_ending line =
    if ends_with (cr ∷ lf ∷ []) line
    then cr ∷ lf ∷ []
    else if ends_with (lf ∷ []) line
    then lf ∷ []
    else if ends_with (cr ∷ []) line
    then cr ∷ []
    else []

-- How many bytes end a line at a byte and the one behind it, if any do.
pub data LineEnd : Type 0 where
  no_end one_byte two_bytes : LineEnd

abbrev pub line_end_of : ℕ → Option ℕ → LineEnd
line_end_of c none = if c == lf || c == cr then one_byte else no_end
line_end_of c (some d) =
    if c == lf
    then one_byte
    else if c == cr && d == lf
    then two_bytes
    else if c == cr
    then one_byte
    else no_end

-- The variables of the loop of `locate_edit_range_offsets`, without `idx`.
pub record Scan : Type 0 where
  pub line_start : ℕ
  pub line_no : ℕ
  pub start_offset : Option ℕ
  pub end_offset : Option ℕ
  pub end_line_ending : Bytes

abbrev pub initial_scan : Scan
initial_scan = record {
  line_start = 0;
  line_no = 0;
  start_offset = none;
  end_offset = none;
  end_line_ending = [];
}

-- A line that ends at `line_end`, with the ending `ending`.
unfoldable pub end_line : ℕ → ℕ → Scan → ℕ → Bytes → FsResult Scan
end_line start_line last_line scan line_end ending = do
  line_no ← ok_or (checked (scan.line_no + 1)) (invalid_path "line count overflow")
  ok (record {
    line_start = line_end;
    line_no = line_no;
    start_offset = if line_no == start_line then some scan.line_start else scan.start_offset;
    end_offset = if line_no == last_line then some line_end else scan.end_offset;
    end_line_ending = if line_no == last_line then ending else scan.end_line_ending;
  })

module _ (start_line last_line : ℕ) (content : Bytes) where
  unfoldable pub end_content_line : Scan → ℕ → FsResult Scan
  end_content_line scan line_end =
      end_line start_line last_line scan line_end
        (line_ending (slice scan.line_start line_end content))

  -- The loop from the offset `idx`, where the bytes that are left begin.
  unfoldable pub scan_lines : Scan → ℕ → Bytes → FsResult Scan
  scan_lines scan idx [] = ok scan
  scan_lines scan idx (c ∷ []) = elim (line_end_of c none) [
    | no_end ↦ ok scan
    | _ ↦ end_content_line scan (idx + 1)
  ]
  scan_lines scan idx (c ∷ d ∷ rest) = elim (line_end_of c (some d)) [
    | no_end ↦ scan_lines scan (idx + 1) (d ∷ rest)
    | one_byte ↦ end_content_line scan (idx + 1) >>= λ next. scan_lines next (idx + 1) (d ∷ rest)
    | two_bytes ↦ end_content_line scan (idx + 2) >>= λ next. scan_lines next (idx + 2) rest
  ]

  -- The last line where no line ending follows it.
  unfoldable pub scan_last_line : Scan → FsResult Scan
  scan_last_line scan =
      if ltb scan.line_start (length content)
      then end_line start_line last_line scan (length content) []
      else ok scan

pub record EditRangeOffsets : Type 0 where
  pub start_offset : ℕ
  pub end_offset : ℕ
  pub end_line_ending : Bytes

abbrev pub invalid_edit_range : Error
invalid_edit_range = patch "invalid edit range"

unfoldable pub locate_edit_range_offsets : Bytes → ℕ → ℕ → FsResult EditRangeOffsets
locate_edit_range_offsets content start_line last_line = do
  scanned ← scan_lines start_line last_line content initial_scan 0 content
  scan ← scan_last_line start_line last_line content scanned
  start_offset ← ok_or scan.start_offset invalid_edit_range
  end_offset ← ok_or scan.end_offset invalid_edit_range
  ok (record {
    start_offset = start_offset;
    end_offset = end_offset;
    end_line_ending = scan.end_line_ending;
  })

-- The loop of `normalize_replacement_line_endings`
unfoldable pub replace_line_endings : Bytes → Bytes → Bytes
replace_line_endings newline [] = []
replace_line_endings newline (c ∷ []) = elim (line_end_of c none) [ no_end ↦ c ∷ [] | _ ↦ newline ]
replace_line_endings newline (c ∷ d ∷ rest) = elim (line_end_of c (some d)) [
  | no_end ↦ c ∷ replace_line_endings newline (d ∷ rest)
  | one_byte ↦ newline ++ replace_line_endings newline (d ∷ rest)
  | two_bytes ↦ newline ++ replace_line_endings newline rest
]

unfoldable pub normalize_replacement_line_endings : Bytes → Bytes → Bytes
normalize_replacement_line_endings replacement newline =
    if is_empty newline
    then replacement
    else if text_eq newline (lf ∷ []) && not (any (λ c. c == cr) replacement)
    then replacement
    else replace_line_endings newline replacement

-- The replacement as it is written: with a line ending where the last line that it replaces has one.
unfoldable pub end_replacement : Bytes → Bytes → Bytes
end_replacement newline replacement =
    let normalized = normalize_replacement_line_endings replacement newline in
    if not (is_empty normalized) && not (is_empty newline) && not (ends_with newline normalized)
    then normalized ++ newline
    else normalized

pub record EditRequest : Type 0 where
  pub root_id : Text
  pub path : Bytes
  pub start_line : ℕ
  pub end_line : ℕ
  pub replacement : Bytes

pub record EditResponse : Type 0 where
  pub path : Bytes
  pub requested_path : Bytes
  pub bytes_written : ℕ

-- `String::replace_range`
unfoldable pub replace_range : ℕ → ℕ → Bytes → Bytes → Bytes
replace_range start stop replacement content =
    slice 0 start content ++ replacement ++ slice stop (length content) content

-- The part of `edit_range` between the reading and the writing: the new content, or `none` where the
-- text stays as it is. The sizes are those of texts in memory, below 2 ^ 64.
unfoldable pub edit_content : Bytes → ℕ → EditRequest → Bytes → FsResult (Option Bytes)
edit_content relative max_write_bytes request content = do
  offsets ← locate_edit_range_offsets content request.start_line request.end_line
  let removed_bytes = offsets.end_offset - offsets.start_offset
  let replacement = end_replacement offsets.end_line_ending request.replacement
  ensure (leb removed_bytes (length content)) (invalid_path "output byte count overflow")
  output_bytes ←
      ok_or (checked (length content - removed_bytes + length replacement))
        (invalid_path "output byte count overflow")
  ensure (leb output_bytes max_write_bytes) (file_too_large relative output_bytes max_write_bytes)
  let replaced = slice offsets.start_offset offsets.end_offset content
  ok (
      if text_eq replacement replaced
      then none
      else some (replace_range offsets.start_offset offsets.end_offset replacement content))

-- The two operations of ops/io.rs that an edit calls: `read_string_limited_with_identity` and
-- `write_bytes_atomic_checked`.
pub record FileAccess : Type 1 where
  pub Identity : Type 0
  pub read_string : (path relative : Bytes) (max_bytes : ℕ) → FsResult (Bytes × Identity)
  pub write_bytes :
      (path relative content : Bytes) (expected : Identity) (preserve : Bool) → FsResult (Unit {0})

module _ (patterns : Patterns) (fs : FileSystem) (ctx : Context patterns) (io : FileAccess) where
  unfoldable pub edit_range : EditRequest → FsResult EditResponse
  edit_range request = do
    ensure_write_operation_allowed patterns ctx request.root_id ctx.policy.permissions.edit "edit"
    (path, relative, requested_path) ←
        canonical_path_in_root patterns fs ctx request.root_id request.path
    ensure
        (not (
          request.start_line == 0
          || request.end_line == 0
          || ltb request.end_line request.start_line))
        invalid_edit_range
    (content, identity) ← io.read_string path relative ctx.policy.limits.max_read_bytes
    edited ← edit_content relative ctx.policy.limits.max_write_bytes request content
    elim edited [
      | none ↦ ok (record { path = relative; requested_path = requested_path; bytes_written = 0 })
      | some output ↦
          io.write_bytes path relative output identity ctx.policy.limits.preserve_unix_xattrs
          >> ok (record {
            path = relative;
            requested_path = requested_path;
            bytes_written = length output;
          })
    ]
