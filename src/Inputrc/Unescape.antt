-- ===== src/Inputrc/Unescape.antt =====
-- `Unescape` (inputrc/inputrc.go) and `unescapeRunes` (inputrc/parse.go).
pub mod Runes
pub mod RoundTrip
use Prim.Native.Nat.{bit_or}
use readline.Base.{
  ℕ, zero, suc, ◌+◌, ◌-◌, ◌*◌, Bool, ◌&&◌, ◌||◌, List, [], ◌∷◌, ◌++◌, ◌==◌, leb, if◌then◌else◌,
  length, take, drop, get_or,
}
use readline.Inputrc.Codes.{
  escape_code, delete_code, alert_code, backspace_code, formfeed_code, newline_code, return_code,
  tab_code, vertical_code, encontrol, enmeta,
}

unfoldable pub oct_digit : ℕ → Bool
oct_digit c = leb b'0' c && leb c b'7'

unfoldable pub hex_digit : ℕ → Bool
hex_digit c =
    (leb b'0' c && leb c b'9') || ((leb b'A' c && leb c b'F') || (leb b'a' c && leb c b'f'))

unfoldable pub hex_val : ℕ → ℕ
hex_val c =
    if leb b'a' c && leb c b'f'
    then c - b'a' + 10
    else if leb b'A' c && leb c b'F'
    then c - b'A' + 10
    else c - b'0'

-- The escapes of one letter, and those of themselves: the rune they stand for, or 0.
unfoldable pub letter_code : ℕ → ℕ
letter_code c =
    if c == b'a'
    then alert_code
    else if c == b'b'
    then backspace_code
    else if c == b'd'
    then delete_code
    else if c == b'e'
    then escape_code
    else if c == b'f'
    then formfeed_code
    else if c == b'n'
    then newline_code
    else if c == b'r'
    then return_code
    else if c == b't'
    then tab_code
    else if c == b'v'
    then vertical_code
    else if (c == b'\\') || ((c == b'"') || (c == b'\''))
    then c
    else 0

module _ (to_upper : ℕ → ℕ) where
  -- One escape, from the runes behind the backslash: the runes that it stands for, and how far the
  -- index moves besides the step of the loop.
  unfoldable pub unescape_step : List ℕ → List ℕ × ℕ
  unfolding oct_digit hex_digit hex_val letter_code
  unescape_step s =
      let char1 = get_or s 0 0 in
      let char2 = get_or s 1 0 in
      let char3 = get_or s 2 0 in
      let char4 = get_or s 3 0 in
      let char5 = get_or s 4 0 in
      let char6 = get_or s 5 0 in
      if leb 1 (letter_code char1)
      then (letter_code char1 ∷ [], 1)
      else if (char1 == b'x') && (hex_digit char2 && hex_digit char3)
      then (bit_or (hex_val char2 * 16) (hex_val char3) ∷ [], 2)
      else if (char1 == b'x') && hex_digit char2
      then (hex_val char2 ∷ [], 1)
      else if oct_digit char1 && (oct_digit char2 && oct_digit char3)
      then (bit_or ((char1 - b'0') * 64) (bit_or ((char2 - b'0') * 8) (char3 - b'0')) ∷ [], 3)
      else if oct_digit char1 && oct_digit char2
      then (bit_or ((char1 - b'0') * 8) (char2 - b'0') ∷ [], 2)
      else if oct_digit char1
      then ((char1 - b'0') ∷ [], 1)
      else if (((char1 == b'C') && (char4 == b'M')) || ((char1 == b'M') && (char4 == b'C')))
          && ((char2 == b'-') && ((char3 == b'\\') && (char5 == b'-')))
      then (if char6 == 0 then [] else escape_code ∷ encontrol to_upper char6 ∷ [], 6)
      else if (char1 == b'C') && (char2 == b'-')
      then ((if char3 == b'?' then delete_code else encontrol to_upper char3) ∷ [], 3)
      else if (char1 == b'M') && (char2 == b'-')
      then (if char3 == 0 then (escape_code ∷ [], 2) else (enmeta char3 ∷ [], 3))
      else (char1 ∷ [], 1)

  unfoldable pub unescape_rune : ℕ → List ℕ → List ℕ × ℕ
  unescape_rune c s = if c == b'\\' then unescape_step s else (c ∷ [], 0)

  -- The loop, with the runes that the index passes over.
  unfoldable pub unescape_loop : ℕ → List ℕ → List ℕ
  unfolding unescape_rune
  unescape_loop passed [] = []
  unescape_loop (suc passed) (c ∷ s) = unescape_loop passed s
  unescape_loop zero (c ∷ s) =
      let (added, passed) = unescape_rune c s in added ++ unescape_loop passed s

  unfoldable pub unescape_runes : List ℕ → ℕ → ℕ → List ℕ
  unescape_runes r i end = if length r == 1 then r else unescape_loop 0 (take (end - i) (drop i r))

  unfoldable pub unescape : List ℕ → List ℕ
  unescape r = unescape_runes r 0 (length r)
