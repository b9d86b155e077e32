-- ===== src/Base/Codes.antt =====
-- Texts and byte strings as lists of numbers, and literals of them.
use Prim.Native.Nat.{ℕ, zero, suc, ◌+◌, ◌/◌, ◌%◌}
use Prim.Native.Char.{code}
use Prim.Native.String.{String}
use mathlib.Core.List.{List, [], ◌∷◌, ◌++◌}
use omne_runtime.Base.Tests.{ltb, if◌then◌else◌}

-- A `str` or `String`: its code points.
abbrev pub Text : Type 0
Text = List ℕ

-- An `OsString`, a `PathBuf` on Unix, or a file's content: its bytes.
abbrev pub Bytes : Type 0
Bytes = List ℕ

-- The code points of a literal, which are its bytes where the literal is ASCII.
unfoldable pub codes : String → List ℕ
codes String.[] = []
codes (String.◌∷◌ c s) = code c ∷ codes s

decimal_on_fuel : ℕ → ℕ → List ℕ
decimal_on_fuel zero n = []
decimal_on_fuel (suc fuel) n =
    let front = decimal_on_fuel fuel (n / 10) in
    if ltb n 10 then (b'0' + n) ∷ [] else front ++ (b'0' + n % 10) ∷ []

-- What `{n}` prints of an unsigned number.
unfoldable pub decimal : ℕ → List ℕ
unfolding decimal_on_fuel
decimal n = decimal_on_fuel (suc n) n
