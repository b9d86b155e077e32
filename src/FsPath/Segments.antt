-- ===== src/FsPath/Segments.antt =====
-- Relative paths without `.` and `..`: their segments, joined by separators, are their components.
pub mod Parents
use omne_runtime.Base.{
  ◌∙◌, ap, inr, inl, Bool-cases, not-eq_true, all-append, ◌==◌, refl, arith, &&-eq_true, ◌≡◌, ℕ,
  text_eq, Bool, true, false, not, ◌&&◌, List, [], ◌∷◌, ◌++◌, Bytes, all, map,
}
use omne_runtime.FsPath.{
  relative_components, normal, is_absolute, components, body_components, body_component, Component,
}
use omne_runtime.Text.{cons_first, split}

abbrev pub not_slash : ℕ → Bool
not_slash c = not (c == b'/')

-- A name that stands for itself in a path
unfoldable pub is_segment : Bytes → Bool
unfolding text_eq
is_segment s =
    not (text_eq s [])
    && not (text_eq s (b'.' ∷ []))
    && not (text_eq s (b'.' ∷ b'.' ∷ []))
    && all not_slash s

abbrev pub behind : List Bytes → Bytes
behind [] = []
behind (s ∷ ss) = b'/' ∷ (s ++ behind ss)

abbrev pub path_of : List Bytes → Bytes
path_of [] = []
path_of (s ∷ ss) = s ++ behind ss

abbrev pub is_proper : Component → Bool
is_proper (normal s) = is_segment s
is_proper _ = true

split-segment :
    (s r : Bytes) (ss : List Bytes)
    → all not_slash s ≡ true
    → split b'/' r ≡ [] ∷ ss
    → split b'/' (s ++ r) ≡ s ∷ ss
unfolding split
split-segment [] r ss free h = h
split-segment (c ∷ s) r ss free h =
    let (one, rest) = &&-eq_true (not_slash c) (all not_slash s) free in
    rw (not-eq_true (c == b'/') one, split-segment s r ss rest h) refl

split-behind : (ss : List Bytes) → all (all not_slash) ss ≡ true → split b'/' (behind ss) ≡ [] ∷ ss
unfolding split
split-behind [] h = refl
split-behind (s ∷ ss) h =
    let (one, rest) = &&-eq_true (all not_slash s) (all (all not_slash) ss) h in
    rw (split-segment s (behind ss) ss one (split-behind ss rest)) refl

is_segment-not_dot : (s : Bytes) → is_segment s ≡ true → text_eq s (b'.' ∷ []) ≡ false
unfolding is_segment
is_segment-not_dot s h = ground arith

is_segment-not_slash : (s : Bytes) → is_segment s ≡ true → all not_slash s ≡ true
unfolding is_segment
is_segment-not_slash s h = ground arith

all-is_segment-not_slash :
    (ss : List Bytes) → all is_segment ss ≡ true → all (all not_slash) ss ≡ true
all-is_segment-not_slash [] h = refl
all-is_segment-not_slash (s ∷ ss) h =
    let (one, rest) = &&-eq_true (is_segment s) (all is_segment ss) h in
    rw (is_segment-not_slash s one) (all-is_segment-not_slash ss rest)

body_components-segments :
    (ss : List Bytes) → all is_segment ss ≡ true → body_components ss ≡ map normal ss
unfolding body_components body_component is_segment
body_components-segments [] h = refl
body_components-segments (s ∷ ss) h =
    let (one, rest) = &&-eq_true (is_segment s) (all is_segment ss) h in
    let tail = body_components-segments ss rest in
    let step : body_component s ≡ normal s ∷ [] = ground arith in rw (step, tail) refl

is_absolute-segment : (s r : Bytes) → is_segment s ≡ true → is_absolute (s ++ r) ≡ false
unfolding is_absolute is_segment
is_absolute-segment [] r h = cc
is_absolute-segment (c ∷ s) r h = ground arith

-- A first segment that is not `.` is read like the others.
relative_components-body_components :
    (s : Bytes) (ss : List Bytes)
    → text_eq s (b'.' ∷ []) ≡ false
    → relative_components (s ∷ ss) ≡ body_components (s ∷ ss)
unfolding relative_components
relative_components-body_components s ss h = ground arith

pub components-path_of :
    (ss : List Bytes) → all is_segment ss ≡ true → components (path_of ss) ≡ map normal ss
unfolding components
components-path_of [] h = refl
components-path_of (s ∷ ss) h =
    let (one, rest) = &&-eq_true (is_segment s) (all is_segment ss) h in
    let pieces =
      split-segment s (behind ss) ss (is_segment-not_slash s one)
        (split-behind ss (all-is_segment-not_slash ss rest)) in
    let whole = body_components-segments (s ∷ ss) h in
    let named : text_eq s (b'.' ∷ []) ≡ false = is_segment-not_dot s one in
    rw (components, is_absolute-segment s (behind ss) one, pieces)
      (relative_components-body_components s ss named ∙ whole)

-- Every normal component of a path is a segment.

cons_first-not_slash :
    (c : ℕ) (ss : List Bytes)
    → not_slash c ≡ true
    → all (all not_slash) ss ≡ true
    → all (all not_slash) (cons_first c ss) ≡ true
cons_first-not_slash c [] one rest = rw (not-eq_true (c == b'/') one) refl
cons_first-not_slash c (s ∷ ss) one rest = rw (not-eq_true (c == b'/') one) rest

split-not_slash : (p : Bytes) → all (all not_slash) (split b'/' p) ≡ true
unfolding split
split-not_slash [] = refl
split-not_slash (c ∷ p) =
    let rest = split-not_slash p in
    elim (Bool-cases (c == b'/')) [
      | inl slash ↦ rw slash rest
      | inr other ↦ rw other (cons_first-not_slash c (split b'/' p) (ap not other) rest)
    ]

body_component-is_proper :
    (s : Bytes) → all not_slash s ≡ true → all is_proper (body_component s) ≡ true
unfolding body_component is_segment
body_component-is_proper s h = ground arith

body_components-is_proper :
    (ss : List Bytes) → all (all not_slash) ss ≡ true → all is_proper (body_components ss) ≡ true
unfolding body_components
body_components-is_proper [] h = refl
body_components-is_proper (s ∷ ss) h =
    let (one, rest) = &&-eq_true (all not_slash s) (all (all not_slash) ss) h in
    rw
      (all-append is_proper (body_component s) (body_components ss), body_component-is_proper s one)
      (body_components-is_proper ss rest)

relative_components-is_proper :
    (ss : List Bytes)
    → all (all not_slash) ss ≡ true
    → all is_proper (relative_components ss) ≡ true
unfolding relative_components
relative_components-is_proper [] h = refl
relative_components-is_proper (s ∷ ss) h =
    let (one, rest) = &&-eq_true (all not_slash s) (all (all not_slash) ss) h in
    elim (Bool-cases (text_eq s (b'.' ∷ []))) [
      | inl dot ↦ rw dot (body_components-is_proper ss rest)
      | inr other ↦
          ap (all is_proper) (relative_components-body_components s ss other)
          ∙ body_components-is_proper (s ∷ ss) h
    ]

pub components-is_proper : (p : Bytes) → all is_proper (components p) ≡ true
unfolding components
components-is_proper p =
    let free = split-not_slash p in
    elim (Bool-cases (is_absolute p)) [
      | inl rooted ↦ rw (components, rooted) (body_components-is_proper (split b'/' p) free)
      | inr relative ↦ rw (components, relative) (relative_components-is_proper (split b'/' p) free)
    ]
