-- ===== src/Text.antt =====
-- The operations of `str` and `char` that the source calls, on texts as lists of code points.
pub mod Utf8
pub mod Laws
unfoldable pub use Utf8.{to_str, to_string_lossy, as_bytes}
use mathlib.Core.Option
use omne_runtime.Base.{
  ℕ, ◌+◌, ◌-◌, Bool, true, false, ◌&&◌, ◌||◌, Option, none, some, List, [], ◌∷◌, map, Text, ltb,
  leb, ◌==◌, any, text_eq, is_some, if◌then◌else◌,
}

-- Characters.

unfoldable pub is_ascii_digit : ℕ → Bool
is_ascii_digit c = leb b'0' c && leb c b'9'

unfoldable pub is_ascii_upper : ℕ → Bool
is_ascii_upper c = leb b'A' c && leb c b'Z'

unfoldable pub is_ascii_lower : ℕ → Bool
is_ascii_lower c = leb b'a' c && leb c b'z'

unfoldable pub is_ascii_alphabetic : ℕ → Bool
unfolding is_ascii_upper is_ascii_lower
is_ascii_alphabetic c = is_ascii_upper c || is_ascii_lower c

unfoldable pub is_ascii_alphanumeric : ℕ → Bool
unfolding is_ascii_alphabetic is_ascii_digit
is_ascii_alphanumeric c = is_ascii_alphabetic c || is_ascii_digit c

unfoldable pub to_ascii_lower : ℕ → ℕ
unfolding is_ascii_upper
to_ascii_lower c = if is_ascii_upper c then c + 32 else c

unfoldable pub to_ascii_upper : ℕ → ℕ
unfolding is_ascii_lower
to_ascii_upper c = if is_ascii_lower c then c - 32 else c

-- `char::is_whitespace`: the Unicode property White_Space.
unfoldable pub is_whitespace : ℕ → Bool
is_whitespace c =
    (leb 9 c && leb c 13)
    || c == 32
    || c == 0x85
    || c == 0xA0
    || c == 0x1680
    || (leb 0x2000 c && leb c 0x200A)
    || c == 0x2028
    || c == 0x2029
    || c == 0x202F
    || c == 0x205F
    || c == 0x3000

-- `char::is_control`: the Unicode category Cc.
unfoldable pub is_control : ℕ → Bool
is_control c = ltb c 32 || (leb 127 c && leb c 159)

-- Texts.

abbrev pub is_empty : Text → Bool
is_empty [] = true
is_empty (c ∷ t) = false

unfoldable pub to_ascii_lowercase : Text → Text
unfolding to_ascii_lower
to_ascii_lowercase = map to_ascii_lower

unfoldable pub to_ascii_uppercase : Text → Text
unfolding to_ascii_upper
to_ascii_uppercase = map to_ascii_upper

unfoldable pub trim_start : Text → Text
unfolding is_whitespace
trim_start [] = []
trim_start (c ∷ t) = let rest = trim_start t in if is_whitespace c then rest else c ∷ t

unfoldable pub trim_end : Text → Text
unfolding is_whitespace
trim_end [] = []
trim_end (c ∷ t) =
    let rest = trim_end t in if is_whitespace c && is_empty rest then [] else c ∷ rest

unfoldable pub trim : Text → Text
unfolding trim_start trim_end
trim t = trim_end (trim_start t)

-- `text.strip_prefix(prefix)`
unfoldable pub strip_prefix : Text → Text → Option Text
strip_prefix [] t = some t
strip_prefix (p ∷ ps) [] = none
strip_prefix (p ∷ ps) (c ∷ t) = let rest = strip_prefix ps t in if p == c then rest else none

-- `text.starts_with(prefix)`
unfoldable pub starts_with : Text → Text → Bool
unfolding strip_prefix
starts_with prefix t = is_some (strip_prefix prefix t)

-- `text.strip_suffix(suffix)`
unfoldable pub strip_suffix : Text → Text → Option Text
unfolding text_eq
strip_suffix suffix [] = if text_eq suffix [] then some [] else none
strip_suffix suffix (c ∷ t) =
    let rest = Option.map (λ r. c ∷ r) (strip_suffix suffix t) in
    if text_eq suffix (c ∷ t) then some [] else rest

-- `text.contains(needle)`
unfoldable pub contains_text : Text → Text → Bool
unfolding starts_with
contains_text needle [] = starts_with needle []
contains_text needle (c ∷ t) = starts_with needle (c ∷ t) || contains_text needle t

-- `text.split_once(c)`: before and after the first `c`.
unfoldable pub split_once : ℕ → Text → Option (Text × Text)
split_once s [] = none
split_once s (c ∷ t) =
    let rest = Option.map (λ (before, after). (c ∷ before, after)) (split_once s t) in
    if c == s then some ([], t) else rest

abbrev pub cons_first : ℕ → List Text → List Text
cons_first c [] = (c ∷ []) ∷ []
cons_first c (s ∷ ss) = (c ∷ s) ∷ ss

-- `text.split(c)`: the pieces between the `c`s, empty ones too.
unfoldable pub split : ℕ → Text → List Text
split s [] = [] ∷ []
split s (c ∷ t) = let rest = split s t in if c == s then [] ∷ rest else cons_first c rest

-- `text.trim_start_matches(c)`
unfoldable pub trim_start_matches : ℕ → Text → Text
trim_start_matches s [] = []
trim_start_matches s (c ∷ t) = let rest = trim_start_matches s t in if c == s then rest else c ∷ t
