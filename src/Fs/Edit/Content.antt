-- ===== src/Fs/Edit/Content.antt =====
-- The content that an edit writes, as the lines of the text give it.
use omne_runtime.Base.{
  leb→le, length-drop, ℕ, List, Bytes, take, drop, length, suc, zero, some, true, [], ◌∷◌, ◌++◌,
  err, ok, leb, ◌+◌, ◌-◌, ◌≡◌, refl, sym, ◌∙◌, arith, inl, inr, length-append, ap, ◌<◌, ◌≤◌, ◌^◌,
  get_elem?, Option-cases, take-append-drop,
}
use mathlib.Core.List.{append-nil, append_assoc}
use omne_runtime.Fs.Edit.{
  invalid_edit_range, locate_edit_range_offsets, line_ending, end_replacement, EditRangeOffsets,
  edit_content, EditRequest, replace_range,
}
use omne_runtime.Fs.Edit.Lines.{take-append-length, drop-append-length, split_lines, put_before}
use omne_runtime.Fs.Edit.Range.{locate_edit_range_offsets_lem, line_range_offsets, total_length}
use omne_runtime.Fs.Edit.Scanning.{two, one, plain, line_end_of-cases}
use omne_runtime.Fs.Error.{Error}
use omne_runtime.Fs.Redaction.Replace.{slice}

unfoldable pub join : List Bytes → Bytes
join [] = []
join (line ∷ lines) = line ++ join lines

join-put_before : (c : ℕ) (lines : List Bytes) → join (put_before (c ∷ []) lines) ≡ c ∷ join lines
unfolding put_before join
join-put_before c [] = refl
join-put_before c (line ∷ lines) = refl

-- The lines of a text, one behind the other, are the text.
join-split_lines : (content : Bytes) → join (split_lines content) ≡ content
unfolding join split_lines
join-split_lines [] = refl
join-split_lines (c ∷ []) = refl
join-split_lines (c ∷ d ∷ rest) = elim (line_end_of-cases c (some d)) [
  | plain e h ↦
      let step : split_lines (c ∷ d ∷ rest) ≡ put_before (c ∷ []) (split_lines (d ∷ rest)) =
        rw (split_lines, e) refl in
      ap join step
      ∙ join-put_before c (split_lines (d ∷ rest))
      ∙ ap (λ bs. c ∷ bs) (join-split_lines (d ∷ rest))
  | one e ↦
      let step : split_lines (c ∷ d ∷ rest) ≡ (c ∷ []) ∷ split_lines (d ∷ rest) =
        rw (split_lines, e) refl in
      ap join step ∙ ap (λ bs. c ∷ bs) (join-split_lines (d ∷ rest))
  | two e ↦
      let step : split_lines (c ∷ d ∷ rest) ≡ (c ∷ d ∷ []) ∷ split_lines rest =
        rw (split_lines, e) refl in
      ap join step ∙ ap (λ bs. c ∷ d ∷ bs) (join-split_lines rest)
]

join-append : (xs ys : List Bytes) → join (xs ++ ys) ≡ join xs ++ join ys
unfolding join
join-append [] ys = refl
join-append (x ∷ xs) ys = rw (join-append xs ys) (sym (append_assoc x (join xs) (join ys)))

total_length-join : (lines : List Bytes) → total_length lines ≡ length (join lines)
unfolding join total_length
total_length-join [] = refl
total_length-join (line ∷ lines) =
    omega (arith, total_length-join lines, length-append line (join lines))

abbrev take_lines : ℕ → Bytes → Bytes
take_lines k content = join (take k (split_lines content))

abbrev drop_lines : ℕ → Bytes → Bytes
drop_lines k content = join (drop k (split_lines content))

take_lines-append :
    (k : ℕ) (content : Bytes) → take_lines k content ++ drop_lines k content ≡ content
take_lines-append k content =
    sym (join-append (take k (split_lines content)) (drop k (split_lines content)))
    ∙ ap join (take-append-drop k (split_lines content))
    ∙ join-split_lines content

-- The bytes before and behind the end of the line `k`.
take-lines :
    (k : ℕ) (content : Bytes)
    → take (total_length (take k (split_lines content))) content ≡ take_lines k content
take-lines k content = rw (total_length-join (take k (split_lines content))) (
    sym (ap (λ bs. take (length (take_lines k content)) bs) (take_lines-append k content))
    ∙ take-append-length (take_lines k content) (drop_lines k content))

drop-lines :
    (k : ℕ) (content : Bytes)
    → drop (total_length (take k (split_lines content))) content ≡ drop_lines k content
drop-lines k content = rw (total_length-join (take k (split_lines content))) (
    sym (ap (λ bs. drop (length (take_lines k content)) bs) (take_lines-append k content))
    ∙ drop-append-length (take_lines k content) (drop_lines k content))

take-all : (bytes : Bytes) → take (length bytes) bytes ≡ bytes
take-all bytes =
    ap (λ bs. take (length bytes) bs) (sym (append-nil bytes)) ∙ take-append-length bytes []

slice-to_end :
    (stop : ℕ) (content : Bytes) → slice stop (length content) content ≡ drop stop content
slice-to_end stop content = rw (← length-drop stop content) (take-all (drop stop content))

slice-from_start : (start : ℕ) (content : Bytes) → slice 0 start content ≡ take start content
slice-from_start start content = let same : start - 0 ≡ start = omega arith in rw same refl

-- A range of whole lines is replaced between the lines before it and those behind it.
replace_range-lines :
    (first last : ℕ) (replacement content : Bytes)
    → replace_range
        (total_length (take first (split_lines content)))
        (total_length (take last (split_lines content)))
        replacement
        content
      ≡ take_lines first content ++ replacement ++ drop_lines last content
unfolding replace_range
replace_range-lines first last replacement content =
    rw
      (
        slice-from_start (total_length (take first (split_lines content))) content,
        slice-to_end (total_length (take last (split_lines content))) content,
        take-lines first content,
        drop-lines last content,
      )
      refl

-- An edited text: the lines before the range, the replacement with the ending of the range's last
-- line, and the lines behind the range, within the limit.
pub record IsEdited (max_write_bytes : ℕ) (request : EditRequest) (content output : Bytes)
    : Type 0 where
  pub last : Bytes
  pub found : get_elem? (split_lines content) (request.end_line - 1) ≡ some last
  pub lines :
      output
      ≡ take_lines (request.start_line - 1) content
        ++ end_replacement (line_ending last) request.replacement
        ++ drop_lines request.end_line content
  pub fits : length output ≤ max_write_bytes

edit_content-eq_some :
    (relative : Bytes) (max_write_bytes : ℕ) (request : EditRequest) (content output : Bytes)
    (offsets : EditRangeOffsets)
    → locate_edit_range_offsets content request.start_line request.end_line ≡ ok offsets
    → edit_content relative max_write_bytes request content ≡ ok (some output)
    → let replacement = end_replacement offsets.end_line_ending request.replacement in
      (output ≡ replace_range offsets.start_offset offsets.end_offset replacement content)
      × (leb
            (length content - (offsets.end_offset - offsets.start_offset) + length replacement)
            max_write_bytes
          ≡ true)
unfolding edit_content
edit_content-eq_some relative max_write_bytes request content output offsets located h =
    (ground arith, ground arith)

total_length-take :
    (k m : ℕ) (lines : List Bytes)
    → k ≤ m
    → total_length (take k lines) ≤ total_length (take m lines)
unfolding total_length
total_length-take zero m lines h = omega arith
total_length-take (suc k) zero lines h = absurd (omega arith)
total_length-take (suc k) (suc m) [] h = omega arith
total_length-take (suc k) (suc m) (line ∷ lines) h =
    omega (arith, total_length-take k m lines (omega arith))

total_length-take_all :
    (k : ℕ) (content : Bytes) → total_length (take k (split_lines content)) ≤ length content
total_length-take_all k content = omega (
  arith,
  total_length-join (take k (split_lines content)),
  length-append (take_lines k content) (drop_lines k content),
  ap length (take_lines-append k content),
)

-- The size that is tested is that of the text that is written.
length-edited :
    (first last : ℕ) (replacement content : Bytes)
    → first ≤ last
    → length (take_lines first content ++ replacement ++ drop_lines last content)
      ≡ length content
        - (total_length (take last (split_lines content))
            - total_length (take first (split_lines content)))
        + length replacement
length-edited first last replacement content h = omega (
  arith,
  total_length-take first last (split_lines content) h,
  total_length-take_all last content,
  total_length-join (take first (split_lines content)),
  total_length-join (take last (split_lines content)),
  length-append (take_lines first content ++ replacement) (drop_lines last content),
  length-append (take_lines first content) replacement,
  length-append (take_lines last content) (drop_lines last content),
  ap length (take_lines-append last content),
)

-- A range that is not in the text is an error.
edit_content-eq_err :
    (relative : Bytes) (max_write_bytes : ℕ) (request : EditRequest) (content : Bytes) (e : Error)
    → locate_edit_range_offsets content request.start_line request.end_line ≡ err e
    → edit_content relative max_write_bytes request content ≡ err e
unfolding edit_content
edit_content-eq_err relative max_write_bytes request content e missing = rw missing refl

-- When an edit of lines, of a text of less than 2 ^ 64 bytes and of a range from line 1 on that is
-- in order, gives a new text, that is the lines before the range, the replacement with the line
-- ending of the last line of the range, and the lines behind the range, and it has at most the
-- permitted number of bytes.
pub edit_content-IsEdited :
    (relative : Bytes) (max_write_bytes : ℕ) (request : EditRequest) (content output : Bytes)
    → length content < 2 ^ 64
    → 1 ≤ request.start_line
    → request.start_line ≤ request.end_line
    → edit_content relative max_write_bytes request content ≡ ok (some output)
    → IsEdited max_write_bytes request content output
unfolding line_range_offsets
edit_content-IsEdited relative max_write_bytes request content output small positive ordered h =
    let first = request.start_line - 1 in
    let within : first ≤ request.end_line = omega arith in
    let located =
      locate_edit_range_offsets_lem content request.start_line request.end_line small positive
        ordered in
    elim (Option-cases (get_elem? (split_lines content) (request.end_line - 1))) [
      | inl e ↦
          let failed =
            edit_content-eq_err relative max_write_bytes request content invalid_edit_range
              (located ∙ rw (line_range_offsets, e) refl) in
          absurd (ground arith)
      | inr (last, e) ↦
          let (lines, fits) =
            edit_content-eq_some relative max_write_bytes request content output _
              (located ∙ rw (line_range_offsets, e) refl) h in
          let same =
            lines
            ∙ replace_range-lines first request.end_line
                (end_replacement (line_ending last) request.replacement) content in
          let replacement = end_replacement (line_ending last) request.replacement in
          let size = length-edited first request.end_line replacement content within in
          let tested = leb→le _ _ fits in
          record { last = last; found = e; lines = same; fits = rw (same, size) tested }
    ]
