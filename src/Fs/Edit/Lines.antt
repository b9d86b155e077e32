-- ===== src/Fs/Edit/Lines.antt =====
-- The lines of a text, and what the scan for a line range finds of them.
use omne_runtime.Base.{
  text_eq, text_eq_iff, take-append-drop, ◌||◌, Bool, ℕ, List, Bytes, ◌==◌, take, drop, length,
  some, true, false, [], ◌∷◌, ◌++◌, ok, ◌>>=◌, any, ◌+◌, ◌-◌, ◌≡◌, refl, arith, inl, inr,
  Bool-cases,
}
use mathlib.Core.List.{append-nil, append_assoc}
use omne_runtime.Fs.Edit.{
  ends_with, no_end, one_byte, two_bytes, line_ending, cr, end_line, line_end_of, lf,
  end_content_line, Scan,
}
use omne_runtime.Fs.Error.{FsResult}
use omne_runtime.Fs.Redaction.Replace.{slice}

-- A line's beginning, put in front of the lines behind it.
unfoldable pub put_before : Bytes → List Bytes → List Bytes
put_before [] lines = lines
put_before (c ∷ p) [] = (c ∷ p) ∷ []
put_before (c ∷ p) (line ∷ lines) = (c ∷ (p ++ line)) ∷ lines

-- The lines of a text with their endings: `\r\n`, `\n` or `\r`.
unfoldable pub split_lines : Bytes → List Bytes
split_lines [] = []
split_lines (c ∷ []) = (c ∷ []) ∷ []
split_lines (c ∷ d ∷ rest) = elim (line_end_of c (some d)) [
  | no_end ↦ put_before (c ∷ []) (split_lines (d ∷ rest))
  | one_byte ↦ (c ∷ []) ∷ split_lines (d ∷ rest)
  | two_bytes ↦ (c ∷ d ∷ []) ∷ split_lines rest
]

abbrev pub is_end : ℕ → Bool
is_end c = c == lf || c == cr

pub take-append-length : (xs ys : Bytes) → take (length xs) (xs ++ ys) ≡ xs
take-append-length [] ys = refl
take-append-length (x ∷ xs) ys = rw (take-append-length xs ys)

pub drop-append-length : (xs ys : Bytes) → drop (length xs) (xs ++ ys) ≡ ys
drop-append-length [] ys = refl
drop-append-length (x ∷ xs) ys = drop-append-length xs ys

pub slice-append :
    (before line rest : Bytes)
    → slice (length before) (length before + length line) (before ++ (line ++ rest)) ≡ line
slice-append before line rest =
    let size : length before + length line - length before ≡ length line = omega arith in
    rw (size, drop-append-length before (line ++ rest)) (take-append-length line rest)

module _ (start_line last_line : ℕ) where
  -- The scan by whole lines.
  unfoldable pub fold_lines : Scan → List Bytes → FsResult Scan
  fold_lines scan [] = ok scan
  fold_lines scan (line ∷ lines) =
      end_line start_line last_line scan (scan.line_start + length line) (line_ending line)
      >>= λ next. fold_lines next lines

module _ (start_line last_line : ℕ) (content : Bytes) where
  pub end_content_line_lem :
      (scan : Scan) (before line rest : Bytes) (stop : ℕ)
      → content ≡ before ++ (line ++ rest)
      → scan.line_start ≡ length before
      → stop ≡ length before + length line
      → end_content_line start_line last_line content scan stop
        ≡ end_line start_line last_line scan (scan.line_start + length line) (line_ending line)
  unfolding end_content_line
  end_content_line_lem scan before line rest stop whole start at =
      rw (whole, start, at, slice-append before line rest) refl

pub any-append : (p : ℕ → Bool) (xs ys : Bytes) → any p (xs ++ ys) ≡ (any p xs || any p ys)
any-append p [] ys = refl
any-append p (x ∷ xs) ys = ground (arith, any-append p xs ys)

ends_with-any :
    (suffix text : Bytes)
    → any is_end suffix ≡ true
    → any is_end text ≡ false
    → ends_with suffix text ≡ false
unfolding ends_with
ends_with-any suffix text h plain =
    let n = length text - length suffix in
    elim (Bool-cases (text_eq (drop n text) suffix)) [
      | inr e ↦ ground arith
      | inl e ↦
          let same : drop n text ≡ suffix = (text_eq_iff (drop n text) suffix).0 e in
          let ends : any is_end (drop n text) ≡ true = rw same h in
          let whole : any is_end (take n text ++ drop n text) ≡ false =
            rw (take-append-drop n text) plain in
          let both = any-append is_end (take n text) (drop n text) in absurd (ground arith)
    ]

pub line_ending-plain : (line : Bytes) → any is_end line ≡ false → line_ending line ≡ []
unfolding line_ending
line_ending-plain line plain =
    rw
      (
        ends_with-any (cr ∷ lf ∷ []) line refl plain,
        ends_with-any (lf ∷ []) line refl plain,
        ends_with-any (cr ∷ []) line refl plain,
      )
      refl

pub put_before-append :
    (p q : Bytes) (lines : List Bytes)
    → put_before (p ++ q) lines ≡ put_before p (put_before q lines)
unfolding put_before
put_before-append [] q lines = refl
put_before-append (c ∷ p) [] [] = rw (append-nil p) refl
put_before-append (c ∷ p) [] (line ∷ lines) = rw (append-nil p) refl
put_before-append (c ∷ p) (d ∷ q) [] = refl
put_before-append (c ∷ p) (d ∷ q) (line ∷ lines) = rw (append_assoc p (d ∷ q) line) refl

pub put_before-line :
    (p line : Bytes) (lines : List Bytes) → put_before p (line ∷ lines) ≡ (p ++ line) ∷ lines
unfolding put_before
put_before-line [] line lines = refl
put_before-line (c ∷ p) line lines = refl
