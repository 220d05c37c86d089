-- ===== src/Base/Utf8.antt =====
-- The bytes of a string of runes, Go's `string(runes)`: the encoding UTF-8, in which a rune that is not
-- valid stands for U+FFFD.
use Prim.Native.Nat.{ℕ, ◌+◌, ◌/◌, ◌%◌}
use mathlib.Core.Bool.{◌&&◌, ◌||◌}
use mathlib.Core.List.{List, [], ◌∷◌, ◌++◌}
use readline.Base.Tests.{ltb, leb, if◌then◌else◌}

-- The continuation byte of the lowest six bits.
unfoldable pub low_bits : ℕ → ℕ
low_bits n = 0x80 + n % 64

unfoldable pub encode_rune : ℕ → List ℕ
encode_rune r =
    if ltb r 0x80
    then r ∷ []
    else if ltb r 0x800
    then (0xc0 + r / 64) ∷ (low_bits r ∷ [])
    else if (leb 0xd800 r && leb r 0xdfff) || ltb 0x10ffff r
    then 0xef ∷ (0xbf ∷ (0xbd ∷ []))
    else if ltb r 0x10000
    then (0xe0 + r / 4096) ∷ (low_bits (r / 64) ∷ (low_bits r ∷ []))
    else (0xf0 + r / 262144) ∷ (low_bits (r / 4096) ∷ (low_bits (r / 64) ∷ (low_bits r ∷ [])))

unfoldable pub to_bytes : List ℕ → List ℕ
to_bytes [] = []
to_bytes (r ∷ rs) = encode_rune r ++ to_bytes rs
