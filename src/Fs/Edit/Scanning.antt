-- ===== src/Fs/Edit/Scanning.antt =====
-- The scan by bytes of `locate_edit_range_offsets` is a scan by lines.
use omne_runtime.Base.{
  ℕ, Option, Bytes, Result, ◌==◌, length, suc, some, none, true, false, [], ◌∷◌, ◌++◌, err, ok,
  ◌>>=◌, ltb, any, ◌+◌, ◌≡◌, refl, sym, ◌∙◌, arith, inl, inr, Bool-cases, length-append, ap,
}
use mathlib.Core.List.{append_assoc}
use omne_runtime.Fs.Edit.{
  line_ending, end_content_line, scan_lines, cr, lf, scan_last_line, line_end_of, end_line, Scan,
  no_end, one_byte, two_bytes,
}
use omne_runtime.Fs.Edit.Lines.{
  put_before-line, end_content_line_lem, put_before-append, split_lines, any-append,
  line_ending-plain, fold_lines, put_before, is_end,
}

>>=-ok {ℓ κ} : {E : Type ℓ} {A : Type κ} (m : Result E A) → (m >>= λ a. ok a) ≡ m
>>=-ok (ok a) = refl
>>=-ok (err e) = refl

>>=-then {ℓ κ} :
    {E : Type ℓ} {A : Type κ} (m : Result E A) (f g last : A → Result E A)
    → ((a : A) → m ≡ ok a → (f a >>= last) ≡ g a)
    → ((m >>= f) >>= last) ≡ (m >>= g)
>>=-then (ok a) f g last h = h a refl
>>=-then (err e) f g last h = refl

pub data LineEndIs (c : ℕ) (d : Option ℕ) : Type 0 where
  plain : line_end_of c d ≡ no_end → is_end c ≡ false → LineEndIs c d
  one : line_end_of c d ≡ one_byte → LineEndIs c d
  two : line_end_of c d ≡ two_bytes → LineEndIs c d

pub line_end_of-cases : (c : ℕ) (d : Option ℕ) → LineEndIs c d
line_end_of-cases c none = elim (Bool-cases (is_end c)) [
  | inl e ↦ one (rw e refl)
  | inr e ↦ plain (rw e refl) e
]
line_end_of-cases c (some d) = elim (Bool-cases (c == lf)) [
  | inl e ↦ one (rw e refl)
  | inr e ↦ elim (Bool-cases (c == cr)) [
    | inr f ↦ plain (rw (e, f) refl) (rw (e, f) refl)
    | inl f ↦ elim (Bool-cases (d == lf)) [
      | inl g ↦ two (rw (e, f, g) refl)
      | inr g ↦ one (rw (e, f, g) refl)
    ]
  ]
]

line_end_of-none_two : (c : ℕ) → line_end_of c none ≡ two_bytes → ⊥
line_end_of-none_two c h = elim (Bool-cases (is_end c)) [
  | inl e ↦ absurd (ground arith)
  | inr e ↦ absurd (ground arith)
]

-- The bytes of the lines so far, the beginning of a line, and what is left: the text and the offsets.
pub record IsAt (content : Bytes) (scan : Scan) (idx : ℕ) (before pending rest : Bytes)
    : Type 0 where
  pub whole : content ≡ before ++ (pending ++ rest)
  pub start : scan.line_start ≡ length before
  pub offset : idx ≡ length before + length pending
  pub open_line : any is_end pending ≡ false

pub split_lines-nil : split_lines [] ≡ []
unfolding split_lines
split_lines-nil = refl

pub split_lines-byte : (c : ℕ) → split_lines (c ∷ []) ≡ (c ∷ []) ∷ []
unfolding split_lines
split_lines-byte c = refl

module _ (start_line last_line : ℕ) (content : Bytes) where
  end_line-start :
      (scan next : Scan) (stop : ℕ) (ending : Bytes)
      → end_line start_line last_line scan stop ending ≡ ok next
      → next.line_start ≡ stop
  unfolding end_line
  end_line-start scan next stop ending h = ground arith

  IsAt-size :
      (scan : Scan) (idx : ℕ) (before pending : Bytes)
      → IsAt content scan idx before pending []
      → length content ≡ length before + length pending
  IsAt-size scan idx before pending at =
      omega
        (arith, ap length at.whole, length-append before (pending ++ []), length-append pending [])

  -- All bytes are scanned.
  scan_last_line_lem :
      (scan : Scan) (idx : ℕ) (before pending : Bytes)
      → IsAt content scan idx before pending []
      → scan_last_line start_line last_line content scan
        ≡ fold_lines start_line last_line scan (put_before pending [])
  unfolding scan_last_line put_before fold_lines
  scan_last_line_lem scan idx before [] at =
      let size = IsAt-size scan idx before [] at in let start = at.start in ground arith
  scan_last_line_lem scan idx before (c ∷ p) at =
      let size = IsAt-size scan idx before (c ∷ p) at in
      let start = at.start in
      let stop : length content ≡ scan.line_start + suc (length p) = omega arith in
      let more : ltb scan.line_start (length content) ≡ true = ground arith in
      rw (more, stop, line_ending-plain (c ∷ p) at.open_line)
        (sym (>>=-ok (end_line start_line last_line scan (scan.line_start + suc (length p)) [])))

  -- A byte that ends no line.
  IsAt-plain :
      (scan : Scan) (idx : ℕ) (before pending : Bytes) (c : ℕ) (rest : Bytes)
      → IsAt content scan idx before pending (c ∷ rest)
      → is_end c ≡ false
      → IsAt content scan (idx + 1) before (pending ++ c ∷ []) rest
  IsAt-plain scan idx before pending c rest at h = record {
    whole = at.whole ∙ ap (λ bs. before ++ bs) (sym (append_assoc pending (c ∷ []) rest));
    start = at.start;
    offset = omega (arith, at.offset, length-append pending (c ∷ []));
    open_line = rw (any-append is_end pending (c ∷ []), at.open_line, h) refl;
  }

  -- The rest of a line, to its end.
  IsAt-line :
      (scan next : Scan) (idx : ℕ) (before pending ending rest : Bytes)
      → IsAt content scan idx before pending (ending ++ rest)
      → next.line_start ≡ idx + length ending
      → IsAt content next (idx + length ending) (before ++ (pending ++ ending)) [] rest
  IsAt-line scan next idx before pending ending rest at h =
      let size : idx + length ending ≡ length (before ++ (pending ++ ending)) = omega (
        arith,
        at.offset,
        length-append before (pending ++ ending),
        length-append pending ending,
      ) in
      record {
        whole =
            at.whole
            ∙ sym (
                append_assoc before (pending ++ ending) rest
                ∙ ap (λ bs. before ++ bs) (append_assoc pending ending rest));
        start = h ∙ size;
        offset = omega (arith, size);
        open_line = refl;
      }

  -- A line that ends, and the lines behind it.
  line-then :
      (scan : Scan) (idx : ℕ) (before pending ending rest : Bytes)
      → IsAt content scan idx before pending (ending ++ rest)
      → ((next : Scan)
          → IsAt content next (idx + length ending) (before ++ (pending ++ ending)) [] rest
          → (scan_lines start_line last_line content next (idx + length ending) rest
              >>= scan_last_line start_line last_line content)
            ≡ fold_lines start_line last_line next (split_lines rest))
      → ((end_content_line start_line last_line content scan (idx + length ending) >>= λ next.
            scan_lines start_line last_line content next (idx + length ending) rest)
          >>= scan_last_line start_line last_line content)
        ≡ fold_lines start_line last_line scan (put_before pending (ending ∷ split_lines rest))
  unfolding fold_lines
  line-then scan idx before pending ending rest at further =
      let line = pending ++ ending in
      let stop : idx + length ending ≡ length before + length line =
        omega (arith, at.offset, length-append pending ending) in
      let whole = at.whole ∙ ap (λ bs. before ++ bs) (sym (append_assoc pending ending rest)) in
      let ended =
        end_content_line_lem start_line last_line content scan before line rest
          (idx + length ending) whole at.start stop in
      let at_stop : scan.line_start + length line ≡ idx + length ending =
        omega (arith, stop, at.start) in
      rw (put_before-line pending ending (split_lines rest), ended)
        (>>=-then _ _ (λ next. fold_lines start_line last_line next (split_lines rest)) _
          (λ next h. further next (
            IsAt-line scan next idx before pending ending rest at (
              end_line-start scan next (scan.line_start + length line) (line_ending line) h
              ∙ at_stop))))

  scan_lines-nil :
      (scan : Scan) (idx : ℕ) → scan_lines start_line last_line content scan idx [] ≡ ok scan
  unfolding scan_lines
  scan_lines-nil scan idx = refl

  pub scan_lines_lem :
      (rest : Bytes) (scan : Scan) (idx : ℕ) (before pending : Bytes)
      → IsAt content scan idx before pending rest
      → (scan_lines start_line last_line content scan idx rest
          >>= scan_last_line start_line last_line content)
        ≡ fold_lines start_line last_line scan (put_before pending (split_lines rest))
  unfolding scan_lines split_lines put_before scan_last_line fold_lines
  scan_lines_lem [] scan idx before pending at =
      rw (scan_lines-nil scan idx, split_lines-nil) (scan_last_line_lem scan idx before pending at)
  scan_lines_lem (c ∷ []) scan idx before pending at = elim (line_end_of-cases c none) [
    | plain e h ↦
        let step : scan_lines start_line last_line content scan idx (c ∷ []) ≡ ok scan =
          rw (scan_lines, e) refl in
        rw (step, split_lines-byte c, ← put_before-append pending (c ∷ []) [])
          (scan_last_line_lem scan (idx + 1) before (pending ++ c ∷ [])
            (IsAt-plain scan idx before pending c [] at h))
    | one e ↦
        let step : scan_lines start_line last_line content scan idx (c ∷ []) ≡ (
            end_content_line start_line last_line content scan (idx + 1) >>= λ next.
            scan_lines start_line last_line content next (idx + 1) []) =
          rw (scan_lines, e)
            (sym (>>=-ok (end_content_line start_line last_line content scan (idx + 1)))) in
        let lines : split_lines (c ∷ []) ≡ (c ∷ []) ∷ split_lines [] =
          rw (split_lines-nil) (split_lines-byte c) in
        rw (step, lines)
          (line-then scan idx before pending (c ∷ []) [] at
            (λ next at'. scan_lines_lem [] next _ _ [] at'))
    | two e ↦ absurd (line_end_of-none_two c e)
  ]
  scan_lines_lem (c ∷ d ∷ rest) scan idx before pending at = elim (line_end_of-cases c (some d)) [
    | plain e h ↦
        let step : scan_lines start_line last_line content scan idx (c ∷ d ∷ rest)
            ≡ scan_lines start_line last_line content scan (idx + 1) (d ∷ rest) =
          rw (scan_lines, e) refl in
        let lines : split_lines (c ∷ d ∷ rest) ≡ put_before (c ∷ []) (split_lines (d ∷ rest)) =
          rw (split_lines, e) refl in
        rw (step, lines, ← put_before-append pending (c ∷ []) (split_lines (d ∷ rest)))
          (scan_lines_lem (d ∷ rest) scan (idx + 1) before (pending ++ c ∷ [])
            (IsAt-plain scan idx before pending c (d ∷ rest) at h))
    | one e ↦
        let step : scan_lines start_line last_line content scan idx (c ∷ d ∷ rest) ≡ (
            end_content_line start_line last_line content scan (idx + 1) >>= λ next.
            scan_lines start_line last_line content next (idx + 1) (d ∷ rest)) =
          rw (scan_lines, e) refl in
        let lines : split_lines (c ∷ d ∷ rest) ≡ (c ∷ []) ∷ split_lines (d ∷ rest) =
          rw (split_lines, e) refl in
        rw (step, lines)
          (line-then scan idx before pending (c ∷ []) (d ∷ rest) at
            (λ next at'. scan_lines_lem (d ∷ rest) next _ _ [] at'))
    | two e ↦
        let step : scan_lines start_line last_line content scan idx (c ∷ d ∷ rest) ≡ (
            end_content_line start_line last_line content scan (idx + 2) >>= λ next.
            scan_lines start_line last_line content next (idx + 2) rest) =
          rw (scan_lines, e) refl in
        let lines : split_lines (c ∷ d ∷ rest) ≡ (c ∷ d ∷ []) ∷ split_lines rest =
          rw (split_lines, e) refl in
        rw (step, lines)
          (line-then scan idx before pending (c ∷ d ∷ []) rest at
            (λ next at'. scan_lines_lem rest next _ _ [] at'))
  ]
