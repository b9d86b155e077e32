-- ===== src/Text/Utf8.antt =====
-- UTF-8 as `str::from_utf8`, `OsStr::to_str` and `to_string_lossy` read it. Texts are lists of code
-- points, byte strings are lists of bytes. The source calls these through the standard library only.
use omne_runtime.Base.{
  ℕ, zero, suc, ◌+◌, ◌-◌, ◌*◌, ◌/◌, ◌%◌, Bool, true, false, ◌&&◌, Option, none, some, [], ◌∷◌, ◌++◌,
  ltb, leb, if◌then◌else◌,
}
use omne_runtime.Base.Codes.{Text, Bytes}
use mathlib.Core.Option

-- What the bytes read so far demand: a first byte, or a byte from `lo` to `hi` and then `more`
-- continuation bytes for the code point whose leading bits are `value`.
pub data Utf8State : Type 0 where
  ready : Utf8State
  pending : (lo hi more value : ℕ) → Utf8State

pub record Utf8Step : Type 0 where
  pub emit : Text
  pub next : Utf8State
  pub valid : Bool

-- U+FFFD
abbrev replacement_char : ℕ
replacement_char = 0xFFFD

-- The first byte of a code point: the table of well-formed sequences of the Unicode standard.
lead : ℕ → Utf8Step
lead b =
    if ltb b 0x80
    then record { emit = b ∷ []; next = ready; valid = true }
    else if leb 0xC2 b && leb b 0xDF
    then record { emit = []; next = pending 0x80 0xBF 0 (b - 0xC0); valid = true }
    else if leb 0xE0 b && leb b 0xEF
    then record {
      emit = [];
      next =
          pending (if leb b 0xE0 then 0xA0 else 0x80)
            (if leb 0xED b && leb b 0xED then 0x9F else 0xBF) 1 (b - 0xE0);
      valid = true;
    }
    else if leb 0xF0 b && leb b 0xF4
    then record {
      emit = [];
      next =
          pending (if leb b 0xF0 then 0x90 else 0x80) (if leb 0xF4 b then 0x8F else 0xBF) 2
            (b - 0xF0);
      valid = true;
    }
    else record { emit = replacement_char ∷ []; next = ready; valid = false }

-- A byte that breaks a sequence off ends it as one replacement character and is read again as a first
-- byte.
step : Utf8State → ℕ → Utf8Step
unfolding lead
step ready b = lead b
step (pending lo hi more value) b =
    if leb lo b && leb b hi
    then elim more [
      | zero ↦ record { emit = (value * 64 + (b - 0x80)) ∷ []; next = ready; valid = true }
      | suc n ↦ record {
        emit = [];
        next = pending 0x80 0xBF n (value * 64 + (b - 0x80));
        valid = true;
      }
    ]
    else record { emit = replacement_char ∷ (lead b).emit; next = (lead b).next; valid = false }

decode_from : Utf8State → Bytes → Option Text
unfolding step
decode_from ready [] = some []
decode_from (pending lo hi more value) [] = none
decode_from s (b ∷ bs) =
    let t = step s b in
    let rest = decode_from t.next bs in if t.valid then Option.map (λ r. t.emit ++ r) rest else none

-- `OsStr::to_str` on Unix, and `String::from_utf8`.
unfoldable pub to_str : Bytes → Option Text
unfolding decode_from
to_str = decode_from ready

lossy_from : Utf8State → Bytes → Text
unfolding step
lossy_from ready [] = []
lossy_from (pending lo hi more value) [] = replacement_char ∷ []
lossy_from s (b ∷ bs) = let t = step s b in t.emit ++ lossy_from t.next bs

-- `OsStr::to_string_lossy`
unfoldable pub to_string_lossy : Bytes → Text
unfolding lossy_from
to_string_lossy = lossy_from ready

encode_char : ℕ → Bytes
encode_char c =
    if ltb c 0x80
    then c ∷ []
    else if ltb c 0x800
    then (0xC0 + c / 64) ∷ (0x80 + c % 64) ∷ []
    else if ltb c 0x10000
    then (0xE0 + c / 4096) ∷ (0x80 + c / 64 % 64) ∷ (0x80 + c % 64) ∷ []
    else (0xF0 + c / 262144) ∷ (0x80 + c / 4096 % 64) ∷ (0x80 + c / 64 % 64) ∷ (0x80 + c % 64) ∷ []

-- `str::as_bytes`
unfoldable pub as_bytes : Text → Bytes
unfolding encode_char
as_bytes [] = []
as_bytes (c ∷ t) = encode_char c ++ as_bytes t
