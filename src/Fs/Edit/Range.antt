-- ===== src/Fs/Edit/Range.antt =====
-- The line range of an edit, as the lines of the text give it.
use omne_runtime.Base.{
  Option-cases, ℕ, List, Bytes, Result, ok_or, ◌==◌, take, length, suc, zero, if◌then◌else◌, some,
  none, true, false, [], ◌∷◌, err, ok, ◌>>=◌, ltb, ◌+◌, ◌-◌, ◌≡◌, refl, sym, ◌∙◌, arith, inl, inr,
  ap, ◌<◌, ◌≤◌, ◌^◌, get_elem?,
}
use omne_runtime.Fs.Edit.{
  scan_last_line, scan_lines, initial_scan, locate_edit_range_offsets, line_ending,
  invalid_edit_range, end_line, EditRangeOffsets, Scan,
}
use omne_runtime.Fs.Edit.Lines.{split_lines, put_before, fold_lines}
use omne_runtime.Fs.Edit.Scanning.{scan_lines_lem, IsAt}
use omne_runtime.Fs.Error.{FsResult}

-- The bytes of lines.
unfoldable pub total_length : List Bytes → ℕ
total_length [] = 0
total_length (line ∷ lines) = length line + total_length lines

-- A range of lines by their numbers, from 1: from the first line's first byte to the last line's end.
unfoldable pub line_range_offsets : List Bytes → ℕ → ℕ → FsResult EditRangeOffsets
line_range_offsets lines start_line last_line = elim (get_elem? lines (last_line - 1)) [
  | none ↦ err invalid_edit_range
  | some line ↦ ok (record {
    start_offset = total_length (take (start_line - 1) lines);
    end_offset = total_length (take last_line lines);
    end_line_ending = line_ending line;
  })
]

finish : Scan → FsResult EditRangeOffsets
finish scan = do
  start_offset ← ok_or scan.start_offset invalid_edit_range
  end_offset ← ok_or scan.end_offset invalid_edit_range
  ok (record {
    start_offset = start_offset;
    end_offset = end_offset;
    end_line_ending = scan.end_line_ending;
  })

-- The range that ends with the line `k` of those behind the offset `base`, if there is one.
abbrev range_to : (start base k : ℕ) (lines : List Bytes) → FsResult EditRangeOffsets
range_to start base k lines = elim (get_elem? lines k) [
  | none ↦ err invalid_edit_range
  | some line ↦ ok (record {
    start_offset = start;
    end_offset = base + total_length (take (suc k) lines);
    end_line_ending = line_ending line;
  })
]

range_to-next :
    (start base k : ℕ) (line : Bytes) (lines : List Bytes)
    → range_to start (base + length line) k lines ≡ range_to start base (suc k) (line ∷ lines)
unfolding total_length
range_to-next start base k line lines = elim (Option-cases (get_elem? lines k)) [
  | inl e ↦ rw (range_to, e) refl
  | inr (last, e) ↦
      let same : base + length line + total_length (take (suc k) lines)
          ≡ base + (length line + total_length (take (suc k) lines)) =
        omega arith in
      rw (range_to, e, same) refl
]

module _ (start_line last_line : ℕ) where
  abbrev advance : Scan → Bytes → Scan
  advance scan line = record {
    line_start = scan.line_start + length line;
    line_no = scan.line_no + 1;
    start_offset =
        if scan.line_no + 1 == start_line then some scan.line_start else scan.start_offset;
    end_offset =
        if scan.line_no + 1 == last_line
        then some (scan.line_start + length line)
        else scan.end_offset;
    end_line_ending =
        if scan.line_no + 1 == last_line then line_ending line else scan.end_line_ending;
  }

  fold_lines-advance :
      (scan : Scan) (line : Bytes) (lines : List Bytes)
      → scan.line_no + length (line ∷ lines) < 2 ^ 64
      → fold_lines start_line last_line scan (line ∷ lines)
        ≡ fold_lines start_line last_line (advance scan line) lines
  unfolding fold_lines end_line
  fold_lines-advance scan line lines fits =
      let fine : ltb (scan.line_no + 1) (2 ^ 64) ≡ true = ground arith in rw fine refl

  -- Behind the range nothing is recorded.
  fold_lines-behind :
      (lines : List Bytes) (scan : Scan)
      → scan.line_no + length lines < 2 ^ 64
      → start_line ≤ scan.line_no
      → last_line ≤ scan.line_no
      → (fold_lines start_line last_line scan lines >>= finish) ≡ finish scan
  unfolding fold_lines finish
  fold_lines-behind [] scan fits after_start after_last = refl
  fold_lines-behind (line ∷ lines) scan fits after_start after_last =
      let past_start : (scan.line_no + 1 == start_line) ≡ false = ground arith in
      let past_last : (scan.line_no + 1 == last_line) ≡ false = ground arith in
      let further =
        fold_lines-behind lines (advance scan line) (omega arith) (omega arith) (omega arith) in
      let same : finish (advance scan line) ≡ finish scan =
        rw (finish, past_start, past_last) refl in
      rw (fold_lines-advance scan line lines fits) (further ∙ same)

  -- In the range its start is known.
  fold_lines-inside :
      (lines : List Bytes) (scan : Scan) (k start : ℕ)
      → scan.line_no + length lines < 2 ^ 64
      → start_line ≤ scan.line_no
      → last_line ≡ scan.line_no + suc k
      → scan.start_offset ≡ some start
      → scan.end_offset ≡ none
      → (fold_lines start_line last_line scan lines >>= finish)
        ≡ range_to start scan.line_start k lines
  unfolding fold_lines finish total_length
  fold_lines-inside [] scan k start fits after_start ahead known open_end =
      rw (finish, known, open_end) refl
  fold_lines-inside (line ∷ lines) scan zero start fits after_start ahead known open_end =
      let past_start : (scan.line_no + 1 == start_line) ≡ false = ground arith in
      let is_last : (scan.line_no + 1 == last_line) ≡ true = ground arith in
      let further =
        fold_lines-behind lines (advance scan line) (omega arith) (omega arith) (omega arith) in
      let size : scan.line_start + length line ≡ scan.line_start + (length line + 0) =
        omega arith in
      let found : finish (advance scan line) ≡ range_to start scan.line_start zero (line ∷ lines) =
        rw (finish, past_start, is_last, known, size) refl in
      rw (fold_lines-advance scan line lines fits) (further ∙ found)
  fold_lines-inside (line ∷ lines) scan (suc k) start fits after_start ahead known open_end =
      let past_start : (scan.line_no + 1 == start_line) ≡ false = ground arith in
      let not_last : (scan.line_no + 1 == last_line) ≡ false = ground arith in
      let known' : (advance scan line).start_offset ≡ some start = rw past_start known in
      let open_end' : (advance scan line).end_offset ≡ none = rw not_last open_end in
      rw (fold_lines-advance scan line lines fits) (
        fold_lines-inside lines (advance scan line) k start (omega arith) (omega arith)
          (omega arith) known' open_end'
        ∙ range_to-next start scan.line_start k line lines)

  -- Before the range nothing is known; the start is the line `j` of those that are left.
  fold_lines-before :
      (lines : List Bytes) (scan : Scan) (j m : ℕ)
      → scan.line_no + length lines < 2 ^ 64
      → start_line ≡ scan.line_no + suc j
      → last_line ≡ start_line + m
      → scan.start_offset ≡ none
      → scan.end_offset ≡ none
      → (fold_lines start_line last_line scan lines >>= finish)
        ≡ range_to (scan.line_start + total_length (take j lines)) scan.line_start (j + m) lines
  unfolding fold_lines finish total_length
  fold_lines-before [] scan j m fits ahead last open_start open_end = rw (finish, open_start) refl
  fold_lines-before (line ∷ lines) scan zero zero fits ahead last open_start open_end =
      let is_start : (scan.line_no + 1 == start_line) ≡ true = ground arith in
      let is_last : (scan.line_no + 1 == last_line) ≡ true = ground arith in
      let further =
        fold_lines-behind lines (advance scan line) (omega arith) (omega arith) (omega arith) in
      let size : scan.line_start + length line ≡ scan.line_start + (length line + 0) =
        omega arith in
      let base : scan.line_start ≡ scan.line_start + 0 = omega arith in
      let found : finish (advance scan line)
          ≡ range_to (scan.line_start + 0) scan.line_start zero (line ∷ lines) =
        rw (finish, is_start, is_last, size, ← base) refl in
      rw (fold_lines-advance scan line lines fits) (further ∙ found)
  fold_lines-before (line ∷ lines) scan zero (suc m) fits ahead last open_start open_end =
      let is_start : (scan.line_no + 1 == start_line) ≡ true = ground arith in
      let base : scan.line_start ≡ scan.line_start + 0 = omega arith in
      let not_last : (scan.line_no + 1 == last_line) ≡ false = ground arith in
      let more : suc m ≡ 0 + suc m = omega arith in
      let known : (advance scan line).start_offset ≡ some (scan.line_start + 0) =
        rw (is_start, ← base) refl in
      let open_end' : (advance scan line).end_offset ≡ none = rw not_last open_end in
      rw (fold_lines-advance scan line lines fits) (
        fold_lines-inside lines (advance scan line) m (scan.line_start + 0) (omega arith)
          (omega arith) (omega arith) known open_end'
        ∙ range_to-next (scan.line_start + 0) scan.line_start m line lines
        ∙ ap (λ k. range_to (scan.line_start + 0) scan.line_start k (line ∷ lines)) more)
  fold_lines-before (line ∷ lines) scan (suc j) m fits ahead last open_start open_end =
      let not_start : (scan.line_no + 1 == start_line) ≡ false = ground arith in
      let not_last : (scan.line_no + 1 == last_line) ≡ false = ground arith in
      let more : suc (j + m) ≡ suc j + m = omega arith in
      let open_start' : (advance scan line).start_offset ≡ none = rw not_start open_start in
      let open_end' : (advance scan line).end_offset ≡ none = rw not_last open_end in
      let base : scan.line_start + length line + total_length (take j lines)
          ≡ scan.line_start + (length line + total_length (take j lines)) =
        omega arith in
      rw (fold_lines-advance scan line lines fits) (
        fold_lines-before lines (advance scan line) j m (omega arith) (omega arith) (omega arith)
          open_start' open_end'
        ∙ rw base (
            range_to-next _ scan.line_start (j + m) line lines
            ∙ ap
                (λ k.
                  range_to (scan.line_start + (length line + total_length (take j lines)))
                    scan.line_start k (line ∷ lines))
                more))

>>=-assoc {ℓ κ μ ν} :
    {E : Type ℓ} {A : Type κ} {B : Type μ} {C : Type ν} (m : Result E A) (f : A → Result E B)
    (g : B → Result E C)
    → ((m >>= f) >>= g) ≡ (m >>= λ a. f a >>= g)
>>=-assoc (ok a) f g = refl
>>=-assoc (err e) f g = refl

length-put_before :
    (c : ℕ) (lines : List Bytes) → length (put_before (c ∷ []) lines) ≤ 1 + length lines
unfolding put_before
length-put_before c [] = omega arith
length-put_before c (line ∷ lines) = omega arith

-- Each line has a byte.
length-split_lines : (content : Bytes) → length (split_lines content) ≤ length content
unfolding split_lines
length-split_lines [] = omega arith
length-split_lines (c ∷ []) = omega arith
length-split_lines (c ∷ d ∷ rest) =
    let one = length-split_lines (d ∷ rest) in
    let two = length-split_lines rest in
    let joined = length-put_before c (split_lines (d ∷ rest)) in ground arith

range_to-lines :
    (lines : List Bytes) (start_line last_line : ℕ)
    → 1 ≤ start_line
    → start_line ≤ last_line
    → range_to
        (0 + total_length (take (start_line - 1) lines))
        0
        (start_line - 1 + (last_line - start_line))
        lines
      ≡ line_range_offsets lines start_line last_line
unfolding line_range_offsets
range_to-lines lines start_line last_line positive ordered =
    let index : start_line - 1 + (last_line - start_line) ≡ last_line - 1 = omega arith in
    let count : suc (start_line - 1 + (last_line - start_line)) ≡ last_line = omega arith in
    let base : 0 + total_length (take (start_line - 1) lines)
        ≡ total_length (take (start_line - 1) lines) =
      omega arith in
    let stop : 0 + total_length (take last_line lines) ≡ total_length (take last_line lines) =
      omega arith in
    elim (Option-cases (get_elem? lines (last_line - 1))) [
      | inl e ↦ rw (index, range_to, line_range_offsets, e) refl
      | inr (line, e) ↦ rw (index, range_to, line_range_offsets, e, count, base, stop) refl
    ]

-- For a text of less than 2 ^ 64 bytes and a line range from line 1 on that is in order, the scan
-- by bytes finds the offset of the first byte of the range, the offset behind its last line, and
-- the ending of that line, as the list of the lines of the text gives them, and it fails exactly
-- when there is no such last line.
pub locate_edit_range_offsets_lem :
    (content : Bytes) (start_line last_line : ℕ)
    → length content < 2 ^ 64
    → 1 ≤ start_line
    → start_line ≤ last_line
    → locate_edit_range_offsets content start_line last_line
      ≡ line_range_offsets (split_lines content) start_line last_line
unfolding locate_edit_range_offsets finish put_before
locate_edit_range_offsets_lem content start_line last_line fits positive ordered =
    let at : IsAt content initial_scan 0 [] [] content = record {
      whole = refl;
      start = refl;
      offset = refl;
      open_line = refl;
    } in
    let scanned = scan_lines_lem start_line last_line content content initial_scan 0 [] [] at in
    let few = length-split_lines content in
    sym (
      >>=-assoc (scan_lines start_line last_line content initial_scan 0 content)
        (scan_last_line start_line last_line content) finish)
    ∙ ap (λ m. m >>= finish) scanned
    ∙ fold_lines-before start_line last_line (split_lines content) initial_scan (start_line - 1)
        (last_line - start_line) (omega arith) (omega arith) (omega arith) refl refl
    ∙ range_to-lines (split_lines content) start_line last_line positive ordered
