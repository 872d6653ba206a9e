-- ===== src/Base/Bytes.antt =====
-- Bytes: tests of equality and of a prefix, search for a text, and bit tests.
use Prim.Native.Nat.{ℕ, ◌+◌, ◌<◌, bit_and}
use mathlib.Core.Bool.{Bool, true, false, not, ◌&&◌}
use mathlib.Core.Option.{Option, none, some}
use mathlib.Core.List.{List, [], ◌∷◌}
use Prim.Native.Char.{code}
use Prim.Native.String.{String}
use support_proxy.Base.Tests.{◌==◌, if◌then◌else◌}
use support_proxy.Base.Lists.{All}

abbrev pub IsByte : ℕ → Type 0
IsByte b = b < 256

abbrev pub IsBytes : List ℕ → Type 0
IsBytes = All IsByte

-- The characters of a text in ASCII.
abbrev pub codes : String → List ℕ
codes String.[] = []
codes (String.◌∷◌ c s) = code c ∷ codes s

abbrev pub bytes_eq : List ℕ → List ℕ → Bool
bytes_eq [] [] = true
bytes_eq [] (y ∷ ys) = false
bytes_eq (x ∷ xs) [] = false
bytes_eq (x ∷ xs) (y ∷ ys) = x == y && bytes_eq xs ys

abbrev pub starts_with : List ℕ → List ℕ → Bool
starts_with [] ys = true
starts_with (x ∷ xs) [] = false
starts_with (x ∷ xs) (y ∷ ys) = x == y && starts_with xs ys

-- The index of the first occurrence of `pat`, counted from `at`.
find_from : ℕ → List ℕ → List ℕ → Option ℕ
find_from at pat [] = if starts_with pat [] then some at else none
find_from at pat (y ∷ ys) =
    let later = find_from (at + 1) pat ys in if starts_with pat (y ∷ ys) then some at else later

-- std::string::find: `none` for npos.
unfoldable pub find : List ℕ → List ℕ → Option ℕ
unfolding find_from
find pat s = find_from 0 pat s

-- (b & mask) != 0
abbrev pub has_bits : ℕ → ℕ → Bool
has_bits b mask = not (bit_and b mask == 0)
