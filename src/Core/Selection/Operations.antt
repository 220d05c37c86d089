-- ===== src/Core/Selection/Operations.antt =====
-- `Cursor`, `Pop` and `ReplaceWith` of the selection (internal/core/selection.go).
use readline.Base.{
  ℕ, zero, suc, ◌+◌, ◌-◌, not, ◌||◌, Option, none, some, [], ◌++◌, ◌==◌, leb, if◌then◌else◌, length,
  take, drop, get_or, is_empty, map, ltb, ◌>>=◌,
}
use readline.Base.Int.{ℤ, pos, pos_part, minus_one, eqb_ℤ}
use readline.Core.Line.{Line}
use readline.Core.Cursor.{get_pos}
use readline.Core.Selection.{
  Selection, line_of, with_line, line_start, range, slice_of, reset, selection_len,
}

-- Where the last loop of `Cursor` ends; its rounds are the runes that are left.
unfoldable pub indented : Line → ℕ → ℕ → ℕ → ℕ
indented l at target zero = at
indented l at target (suc rounds) =
    if (get_or l at 0 == b'\n') || leb target at then at else indented l (suc at) target rounds

-- The position for whole lines, from the range and the position of the cursor.
unfoldable pub line_cursor : Line → ℕ → ℕ → ℕ → ℕ
line_cursor l b e at =
    let indent = at - line_start l at in
    let above = line_start l (b - 1) in
    let from = if ltb e (length l) then e + 1 else above in
    let to = if ltb e (length l) then b else above in
    (to + indented l from (from + indent) (length l - from)) - from

-- `Cursor`
unfoldable pub cursor_of : Selection → Selection × ℤ
cursor_of s =
    let (s', b, e) = range s in
    let (c, at) = get_pos s'.cursor in
    let s'' = record s' { cursor = c } in
    if eqb_ℤ b minus_one
    then (s'', at)
    else if not s'.visual || not s'.visual_line
    then (s', b)
    else (s'', pos (line_cursor (line_of s') (pos_part b) (pos_part e) (pos_part at)))

-- `Pop`: the text, the range and the position of the cursor.
unfoldable pub pop_selection : Selection → Option (Selection × Line × ℤ × ℤ × ℤ)
pop_selection s =
    if is_empty (line_of s)
    then some (s, [], minus_one, minus_one, pos 0)
    else let (s', b, e) = range s in
      if eqb_ℤ b minus_one || eqb_ℤ e minus_one
      then some (reset s', [], minus_one, minus_one, pos 0)
      else let (s'', at) = cursor_of s' in
        elim (slice_of (line_of s'') b e) [
          | none ↦ none
          | some chars ↦ some (reset s'', chars, b, e, at)
        ]

-- The loop of `ReplaceWith`, over the range.
unfoldable pub replace_range : (ℕ → ℕ) → Selection × ℤ × ℤ → Option Selection
replace_range replacer (s, b, e) =
    if eqb_ℤ b minus_one || eqb_ℤ e minus_one then some (reset s) else do
      chars ← slice_of (line_of s) b e
      let l = line_of s
      some
          (reset (with_line s (take (pos_part b) l ++ (map replacer chars ++ drop (pos_part e) l))))

-- `ReplaceWith`
unfoldable pub replace_selection : Selection → (ℕ → ℕ) → Option Selection
replace_selection s replacer =
    if is_empty (line_of s)
    then some s
    else do (s', n) ← selection_len s; if n == 0 then some s' else replace_range replacer (range s')
