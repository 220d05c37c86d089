-- ===== src/History/Match.antt =====
-- The search of a history source for a line (internal/history/sources.go, `match`). The text to match
-- is the bytes of a string, which the code cuts at the position of the cursor, and is compared with the
-- bytes of the lines. The match of a quoted regular expression, of the text and a line as bytes, is a
-- parameter. `none` is a panic, or means that the rounds ran out.
pub mod Newest
use readline.Base.{
  ℕ, zero, suc, ◌+◌, Bool, true, false, not, ◌&&◌, ◌||◌, Option, none, some, List, [], ◌∷◌, ◌==◌,
  ltb, if◌then◌else◌, length, take, get_elem?, is_empty,
}
use readline.Base.Int.{ℤ, pos, pos_part, neg_part, minus_one, ltb_ℤ, eqb_ℤ, ◌+ℤ◌, ◌-ℤ◌}
use readline.Base.Utf8.{to_bytes}
use readline.Core.Line.{Line, len}
use readline.Core.Cursor.{Cursor, get_pos}

-- `strings.HasPrefix`
unfoldable pub has_prefix : List ℕ → List ℕ → Bool
has_prefix s [] = true
has_prefix [] (x ∷ p) = false
has_prefix (y ∷ s) (x ∷ p) = (y == x) && has_prefix s p

-- `GetLine` of the in-memory source.
unfoldable pub get_line : List Line → ℤ → Option Line
get_line [] i = some []
get_line (first ∷ rest) i = if ltb_ℤ i (pos 0) then none else get_elem? (first ∷ rest) (pos_part i)

-- The part of the text that is matched, in bytes: the position counts runes, but the code cuts bytes.
unfoldable pub needle : Line → Option Cursor → List ℕ
needle line none = to_bytes line
needle line (some c) =
    let at = (get_pos c).1 in
    if ltb_ℤ at (len line) then take (pos_part at) (to_bytes line) else to_bytes line

module _ (matches : List ℕ → List ℕ → Bool) where
  unfoldable pub is_match : Bool → List ℕ → Line → Bool
  unfolding has_prefix
  is_match true text line = matches text (to_bytes line)
  is_match false text line = not (
      ltb (length (to_bytes line)) (length text)
      || (ltb 0 (length text) && not (has_prefix (to_bytes line) text)))

  unfoldable pub match_loop : List Line → List ℕ → Bool → Bool → ℤ → ℕ → Option (Option (Line × ℤ))
  unfolding is_match get_line
  match_loop entries text fwd regex at zero = none
  match_loop entries text fwd regex at (suc rounds) =
      let at' = if fwd then at +ℤ pos 1 else at -ℤ pos 1 in
      let later = match_loop entries text fwd regex at' rounds in
      if not (if fwd then ltb_ℤ at (pos (length entries)) else ltb_ℤ (pos 0) at)
      then some none
      else elim (get_line entries at') [
        | none ↦ none
        | some line ↦ if is_match regex text line then some (some (line, at')) else later
      ]

  -- The line that matches and its index, from the position `hpos` in the history on.
  unfoldable pub match :
      List Line → ℤ → Line → Option Cursor → Bool → Bool → Bool → Option (Option (Line × ℤ))
  unfolding match_loop needle
  match entries hpos line cur use_pos fwd regex =
      let end = pos (length entries) in
      let start =
        if use_pos && ltb_ℤ minus_one hpos then end -ℤ hpos else if fwd then minus_one else end in
      match_loop entries (needle line cur) fwd regex start (length entries + neg_part start + 2)
