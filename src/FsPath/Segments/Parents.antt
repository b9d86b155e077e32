-- ===== src/FsPath/Segments/Parents.antt =====
-- `push`, `parent` and `file_name` of a path that is made of segments.
use omne_runtime.Base.{
  ◌==◌, some, not-eq_true, arith, inr, text_eq_refl, text_eq→eq, sym, ◌∙◌, refl, inl, ap,
  all-append, Bool-cases, false, &&-eq_true, ◌≡◌, ℕ, text_eq, Bool, true, List, [], ◌∷◌, ◌++◌,
  Bytes, all, map,
}
use mathlib.Core.List.{
  reverse, reverse-append, reverse-cons, reverse-reverse, append-nil, append_assoc,
}
use omne_runtime.FsPath.{
  last_normal, file_name, normal, is_nil, is_absolute, has_parent, push, parent, drop_segment,
  trim_reversed, ends_slash,
}
use omne_runtime.FsPath.Segments.{path_of, components-path_of, behind, not_slash, is_segment}

ends_slash-suffix : (x : Bytes) (c : ℕ) (y : Bytes) → ends_slash (x ++ c ∷ y) ≡ ends_slash (c ∷ y)
unfolding ends_slash
ends_slash-suffix [] c y = refl
ends_slash-suffix (d ∷ []) c y = refl
ends_slash-suffix (d ∷ e ∷ x) c y = ends_slash-suffix (e ∷ x) c y

ends_slash-not_slash :
    (c : ℕ) (s : Bytes) → all not_slash (c ∷ s) ≡ true → ends_slash (c ∷ s) ≡ false
unfolding ends_slash
ends_slash-not_slash c [] h = ground arith
ends_slash-not_slash c (d ∷ s) h =
    let (one, rest) = &&-eq_true (not_slash c) (all not_slash (d ∷ s)) h in
    ends_slash-not_slash d s rest

segment-cons :
    (s : Bytes)
    → is_segment s ≡ true
    → (c : ℕ) × (t : Bytes) × (s ≡ c ∷ t) × (all not_slash (c ∷ t) ≡ true)
unfolding is_segment
segment-cons [] h = absurd (ground arith)
segment-cons (c ∷ t) h = (c, t, refl, ground arith)

-- A path of segments ends in a segment.
pub record EndsIn (p : Bytes) : Type 0 where
  pub front : Bytes
  pub last : Bytes
  pub last_segment : is_segment last ≡ true
  pub parts : p ≡ front ++ last

path_of-EndsIn :
    (s : Bytes) (ss : List Bytes)
    → is_segment s ≡ true
    → all is_segment ss ≡ true
    → EndsIn (path_of (s ∷ ss))
path_of-EndsIn s [] one rest = record {
  front = [];
  last = s;
  last_segment = one;
  parts = append-nil s;
}
path_of-EndsIn s (t ∷ ts) one rest =
    let (two, others) = &&-eq_true (is_segment t) (all is_segment ts) rest in
    let inner = path_of-EndsIn t ts two others in
    record {
      front = s ++ b'/' ∷ inner.front;
      last = inner.last;
      last_segment = inner.last_segment;
      parts =
          ap (λ r. s ++ b'/' ∷ r) inner.parts
          ∙ sym (append_assoc s (b'/' ∷ inner.front) inner.last);
    }

ends_slash-EndsIn : (p : Bytes) → EndsIn p → ends_slash p ≡ false
ends_slash-EndsIn p ends =
    let (c, t, e, free) = segment-cons ends.last ends.last_segment in
    ap ends_slash (ends.parts ∙ ap (λ r. ends.front ++ r) e)
    ∙ ends_slash-suffix ends.front c t
    ∙ ends_slash-not_slash c t free

trim_reversed-segment :
    (t x : Bytes)
    → all not_slash t ≡ true
    → text_eq t [] ≡ false
    → text_eq t (b'.' ∷ []) ≡ false
    → trim_reversed (t ++ x) ≡ t ++ x
unfolding trim_reversed text_eq
trim_reversed-segment [] x free filled named = cc
trim_reversed-segment (c ∷ []) x free filled named = ground arith
trim_reversed-segment (c ∷ d ∷ t) x free filled named = ground arith

all-reverse : (p : ℕ → Bool) (s : Bytes) → all p s ≡ true → all p (reverse s) ≡ true
all-reverse p [] h = refl
all-reverse p (c ∷ s) h =
    let (one, rest) = &&-eq_true (p c) (all p s) h in
    rw (reverse-cons c s, all-append p (reverse s) (c ∷ []), all-reverse p s rest, one) refl

text_eq-reverse : (s t : Bytes) → text_eq s (reverse t) ≡ false → text_eq (reverse s) t ≡ false
text_eq-reverse s t h = elim (Bool-cases (text_eq (reverse s) t)) [
  | inl e ↦
      let back = text_eq→eq (reverse s) t e in
      let forth = sym (reverse-reverse s) ∙ ap reverse back in
      absurd (cc (h, ap (text_eq s) forth, text_eq_refl s))
  | inr e ↦ e
]

text_eq-nil : (s : Bytes) → is_segment s ≡ true → text_eq s [] ≡ false
unfolding is_segment
text_eq-nil s h = ground arith

text_eq-dot : (s : Bytes) → is_segment s ≡ true → text_eq s (b'.' ∷ []) ≡ false
unfolding is_segment
text_eq-dot s h = ground arith

all-not_slash : (s : Bytes) → is_segment s ≡ true → all not_slash s ≡ true
unfolding is_segment
all-not_slash s h = ground arith

trim_reversed-last :
    (s x : Bytes) → is_segment s ≡ true → trim_reversed (reverse s ++ x) ≡ reverse s ++ x
trim_reversed-last s x h =
    trim_reversed-segment (reverse s) x (all-reverse not_slash s (all-not_slash s h))
      (text_eq-reverse s [] (text_eq-nil s h)) (text_eq-reverse s (b'.' ∷ []) (text_eq-dot s h))

trim_reversed-EndsIn : (p : Bytes) → EndsIn p → trim_reversed (reverse p) ≡ reverse p
trim_reversed-EndsIn p ends =
    let e = ap reverse ends.parts ∙ reverse-append ends.front ends.last in
    ap trim_reversed e ∙ trim_reversed-last ends.last (reverse ends.front) ends.last_segment ∙ sym e

drop_segment-segment :
    (s x : Bytes) → all not_slash s ≡ true → drop_segment (s ++ b'/' ∷ x) ≡ b'/' ∷ x
unfolding drop_segment
drop_segment-segment [] x h = refl
drop_segment-segment (c ∷ s) x h =
    let (one, rest) = &&-eq_true (not_slash c) (all not_slash s) h in
    rw (not-eq_true (c == b'/') one) (drop_segment-segment s x rest)

drop_segment-whole : (s : Bytes) → all not_slash s ≡ true → drop_segment s ≡ []
unfolding drop_segment
drop_segment-whole [] h = refl
drop_segment-whole (c ∷ s) h =
    let (one, rest) = &&-eq_true (not_slash c) (all not_slash s) h in
    rw (not-eq_true (c == b'/') one) (drop_segment-whole s rest)

-- The bytes that `parent` keeps
abbrev parent_bytes : Bytes → Bytes
parent_bytes p = reverse (trim_reversed (drop_segment (trim_reversed (reverse p))))

parent_bytes-segment : (s : Bytes) → is_segment s ≡ true → parent_bytes s ≡ []
unfolding trim_reversed
parent_bytes-segment s h =
    let turned = append-nil (reverse s) in
    let plain = sym (ap trim_reversed turned) ∙ trim_reversed-last s [] h ∙ turned in
    let gone = drop_segment-whole (reverse s) (all-reverse not_slash s (all-not_slash s h)) in
    ap (λ r. reverse (trim_reversed (drop_segment r))) plain
    ∙ ap (λ r. reverse (trim_reversed r)) gone

reverse-behind : (p s : Bytes) → reverse (p ++ b'/' ∷ s) ≡ reverse s ++ b'/' ∷ reverse p
reverse-behind p s =
    reverse-append p (b'/' ∷ s)
    ∙ ap (λ r. r ++ reverse p) (reverse-cons b'/' s)
    ∙ append_assoc (reverse s) (b'/' ∷ []) (reverse p)

is_nil-append : (x y : Bytes) → is_nil x ≡ false → is_nil (x ++ y) ≡ false
is_nil-append [] y h = cc
is_nil-append (c ∷ x) y h = refl

is_nil-text_eq : (x : Bytes) → text_eq x [] ≡ false → is_nil x ≡ false
unfolding text_eq
is_nil-text_eq [] h = cc
is_nil-text_eq (c ∷ x) h = refl

EndsIn-is_nil : (p : Bytes) → EndsIn p → is_nil (reverse p) ≡ false
EndsIn-is_nil p ends =
    let filled = text_eq-reverse ends.last [] (text_eq-nil ends.last ends.last_segment) in
    ap is_nil (ap reverse ends.parts ∙ reverse-append ends.front ends.last)
    ∙ is_nil-append (reverse ends.last) (reverse ends.front)
        (is_nil-text_eq (reverse ends.last) filled)

trim_reversed-separator : (p : Bytes) → EndsIn p → trim_reversed (b'/' ∷ reverse p) ≡ reverse p
unfolding trim_reversed
trim_reversed-separator p ends =
    let trimmed = trim_reversed-EndsIn p ends in rw (trim_reversed, EndsIn-is_nil p ends) trimmed

parent_bytes-EndsIn :
    (p s : Bytes) → EndsIn p → is_segment s ≡ true → parent_bytes (p ++ b'/' ∷ s) ≡ p
parent_bytes-EndsIn p s ends h =
    let free = all-reverse not_slash s (all-not_slash s h) in
    ap (λ r. reverse (trim_reversed (drop_segment (trim_reversed r)))) (reverse-behind p s)
    ∙ ap (λ r. reverse (trim_reversed (drop_segment r))) (trim_reversed-last s (b'/' ∷ reverse p) h)
    ∙ ap (λ r. reverse (trim_reversed r)) (drop_segment-segment (reverse s) (reverse p) free)
    ∙ ap reverse (trim_reversed-separator p ends)
    ∙ reverse-reverse p

behind-snoc : (ss : List Bytes) (s : Bytes) → behind (ss ++ s ∷ []) ≡ behind ss ++ b'/' ∷ s
behind-snoc [] s = ap (λ r. b'/' ∷ r) (append-nil s)
behind-snoc (t ∷ ts) s =
    ap (λ r. b'/' ∷ (t ++ r)) (behind-snoc ts s)
    ∙ ap (λ r. b'/' ∷ r) (sym (append_assoc t (behind ts) (b'/' ∷ s)))

path_of-snoc :
    (t : Bytes) (ts : List Bytes) (s : Bytes)
    → path_of (t ∷ (ts ++ s ∷ [])) ≡ path_of (t ∷ ts) ++ b'/' ∷ s
path_of-snoc t ts s =
    ap (λ r. t ++ r) (behind-snoc ts s) ∙ sym (append_assoc t (behind ts) (b'/' ∷ s))

is_absolute-segment : (s : Bytes) → is_segment s ≡ true → is_absolute s ≡ false
unfolding is_absolute is_segment
is_absolute-segment [] h = refl
is_absolute-segment (c ∷ s) h = ground arith

pub push-path_of :
    (ss : List Bytes) (s : Bytes)
    → all is_segment ss ≡ true
    → is_segment s ≡ true
    → push (path_of ss) s ≡ path_of (ss ++ s ∷ [])
unfolding push
push-path_of [] s h one = rw (push, is_absolute-segment s one) (sym (append-nil s))
push-path_of (t ∷ ts) s h one =
    let (first, rest) = &&-eq_true (is_segment t) (all is_segment ts) h in
    let ends = ends_slash-EndsIn (path_of (t ∷ ts)) (path_of-EndsIn t ts first rest) in
    rw (push, is_absolute-segment s one, ends) (sym (path_of-snoc t ts s))

has_parent-segments : (ss : List Bytes) (s : Bytes) → has_parent (map normal (ss ++ s ∷ [])) ≡ true
unfolding has_parent
has_parent-segments [] s = refl
has_parent-segments (t ∷ ts) s = refl

parent_bytes-path_of :
    (ss : List Bytes) (s : Bytes)
    → all is_segment ss ≡ true
    → is_segment s ≡ true
    → parent_bytes (path_of (ss ++ s ∷ [])) ≡ path_of ss
parent_bytes-path_of [] s h one = ap parent_bytes (append-nil s) ∙ parent_bytes-segment s one
parent_bytes-path_of (t ∷ ts) s h one =
    let (first, rest) = &&-eq_true (is_segment t) (all is_segment ts) h in
    let ends = path_of-EndsIn t ts first rest in
    ap parent_bytes (path_of-snoc t ts s) ∙ parent_bytes-EndsIn (path_of (t ∷ ts)) s ends one

pub parent-path_of :
    (ss : List Bytes) (s : Bytes)
    → all is_segment ss ≡ true
    → is_segment s ≡ true
    → parent (path_of (ss ++ s ∷ [])) ≡ some (path_of ss)
unfolding parent
parent-path_of ss s h one =
    let whole = all-append is_segment ss (s ∷ []) in
    let segments : all is_segment (ss ++ s ∷ []) ≡ true = ground arith in
    let e = components-path_of (ss ++ s ∷ []) segments in
    rw (parent, e, has_parent-segments ss s) (ap some (parent_bytes-path_of ss s h one))

last_normal-segments :
    (ss : List Bytes) (s : Bytes) → last_normal (map normal (ss ++ s ∷ [])) ≡ some s
last_normal-segments [] s = refl
last_normal-segments (t ∷ []) s = refl
last_normal-segments (t ∷ u ∷ ts) s = last_normal-segments (u ∷ ts) s

pub file_name-path_of :
    (ss : List Bytes) (s : Bytes)
    → all is_segment ss ≡ true
    → is_segment s ≡ true
    → file_name (path_of (ss ++ s ∷ [])) ≡ some s
unfolding file_name
file_name-path_of ss s h one =
    let whole = all-append is_segment ss (s ∷ []) in
    let segments : all is_segment (ss ++ s ∷ []) ≡ true = ground arith in
    ap last_normal (components-path_of (ss ++ s ∷ []) segments) ∙ last_normal-segments ss s
