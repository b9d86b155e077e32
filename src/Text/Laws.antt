-- ===== src/Text/Laws.antt =====
-- Trimming, case and bytes of the texts that they leave alone.
use omne_runtime.Base.{
  inr, ◌&&◌, inl, false, Bool-cases, [], ◌∷◌, refl, not-eq_true, ==_iff, &&-eq_true, true, some,
  ◌≡◌, ◌++◌, not, ltb, all, Text, Bool, ℕ,
}
use omne_runtime.Text.{
  is_empty, is_whitespace, is_ascii_upper, to_ascii_lower, trim_start, trim_end, trim,
  to_ascii_lowercase, strip_prefix, as_bytes,
}

abbrev pub is_printable : ℕ → Bool
is_printable c = not (is_whitespace c)

trim_end-all : (t : Text) → all is_printable t ≡ true → trim_end t ≡ t
unfolding trim_end
trim_end-all [] h = refl
trim_end-all (c ∷ t) h =
    let (plain, rest) = &&-eq_true (is_printable c) (all is_printable t) h in
    let blank = not-eq_true (is_whitespace c) plain in rw (trim_end-all t rest, blank) refl

trim_start-all : (t : Text) → all is_printable t ≡ true → trim_start t ≡ t
unfolding trim_start
trim_start-all [] h = refl
trim_start-all (c ∷ t) h =
    let (plain, rest) = &&-eq_true (is_printable c) (all is_printable t) h in
    rw (not-eq_true (is_whitespace c) plain) refl

-- A text without whitespace is trimmed already.
pub trim-all : (t : Text) → all is_printable t ≡ true → trim t ≡ t
unfolding trim
trim-all t h = rw (trim_start-all t h, trim_end-all t h) refl

pub strip_prefix-append : (p t : Text) → strip_prefix p (p ++ t) ≡ some t
unfolding strip_prefix
strip_prefix-append [] t = refl
strip_prefix-append (c ∷ p) t = rw (strip_prefix-append p t, (==_iff c c).1 refl) refl

pub as_bytes-ascii : (t : Text) → all (λ c. ltb c 0x80) t ≡ true → as_bytes t ≡ t
unfolding as_bytes
as_bytes-ascii [] h = refl
as_bytes-ascii (c ∷ t) h =
    let (small, rest) = &&-eq_true (ltb c 0x80) (all (λ c. ltb c 0x80) t) h in
    rw (as_bytes-ascii t rest, small) refl

pub to_ascii_lowercase-all :
    (t : Text) → all (λ c. not (is_ascii_upper c)) t ≡ true → to_ascii_lowercase t ≡ t
unfolding to_ascii_lowercase to_ascii_lower
to_ascii_lowercase-all [] h = refl
to_ascii_lowercase-all (c ∷ t) h =
    let (kept, rest) =
      &&-eq_true (not (is_ascii_upper c)) (all (λ c. not (is_ascii_upper c)) t) h in
    rw (to_ascii_lowercase-all t rest, not-eq_true (is_ascii_upper c) kept) refl

-- A text that does not start with whitespace.
abbrev IsStarted : Text → Type 0
IsStarted [] = Unit
IsStarted (c ∷ t) = is_whitespace c ≡ false

trim_start-IsStarted : (t : Text) → IsStarted (trim_start t)
unfolding trim_start
trim_start-IsStarted [] = tt
trim_start-IsStarted (c ∷ t) = elim (Bool-cases (is_whitespace c)) [
  | inl blank ↦ rw blank (trim_start-IsStarted t)
  | inr solid ↦ rw solid solid
]

trim_end-IsStarted : (t : Text) → IsStarted t → IsStarted (trim_end t)
unfolding trim_end
trim_end-IsStarted [] h = tt
trim_end-IsStarted (c ∷ t) h = rw h h

IsStarted-trim_start : (t : Text) → IsStarted t → trim_start t ≡ t
unfolding trim_start
IsStarted-trim_start [] h = refl
IsStarted-trim_start (c ∷ t) h = rw h refl

trim_end-trim_end : (t : Text) → trim_end (trim_end t) ≡ trim_end t
unfolding trim_end
trim_end-trim_end [] = refl
trim_end-trim_end (c ∷ t) = elim (Bool-cases (is_whitespace c && is_empty (trim_end t))) [
  | inl blank ↦ rw blank refl
  | inr kept ↦ rw (kept, trim_end-trim_end t, kept) refl
]

-- A trimmed text stays as it is.
pub trim-trim : (t : Text) → trim (trim t) ≡ trim t
unfolding trim
trim-trim t =
    let started = trim_end-IsStarted (trim_start t) (trim_start-IsStarted t) in
    rw (IsStarted-trim_start (trim_end (trim_start t)) started) (trim_end-trim_end (trim_start t))
