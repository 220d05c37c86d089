-- ===== src/Core/Cursor/LineMove.antt =====
-- The lines of the buffer that the cursor moves between (internal/core/cursor.go): `LinePos`,
-- `LineMove`, `moveLineUp`, `moveLineDown`, `AtBeginningOfLine` and `AtEndOfLine`.
pub mod Lines
pub mod Layout
pub mod Below
pub mod Above
use readline.Base.{
  ℕ, zero, suc, ◌+◌, ◌-◌, Bool, true, false, ◌||◌, Option, none, some, List, [], ◌∷◌, ◌==◌, ltb,
  if◌then◌else◌, length, get_elem?, ◌>>=◌,
}
use readline.Base.Int.{ℤ, pos, pos_part, neg_part, minus_one, ltb_ℤ, eqb_ℤ, ◌+ℤ◌, ◌-ℤ◌}
use readline.Core.Line.{len}
use readline.Core.Search.{newlines}
use readline.Core.Cursor.{Cursor, check_append, check_command}

-- The loop of `LinePos`: the first line that ends at the position or behind it.
unfoldable pub line_index : List (ℕ × ℕ) → ℕ → ℕ → ℕ
line_index [] at i = i
line_index ((end, after) ∷ rest) at i = if ltb end at then line_index rest at (i + 1) else i

unfoldable pub line_pos : Cursor → Cursor × ℕ
line_pos c = let c' = check_append c in (c', line_index (newlines c'.line) (pos_part c'.pos) 0)

-- The end of both loops: the column that the cursor had, or the end of a shorter line.
unfoldable pub land : Cursor → ℤ → ℤ → ℤ → Cursor
land c cpos begin end =
    if ltb_ℤ cpos (end -ℤ begin) then record c { pos = begin +ℤ cpos } else record c { pos = end }

-- The loop of `moveLineDown` over the newlines that are left, from line `i` of the buffer.
unfoldable pub down_loop : Cursor → List (ℕ × ℕ) → ℕ → ℤ → ℤ → Cursor
down_loop c [] i cpos begin = c
down_loop c ((end, after) ∷ rest) i cpos begin =
    let (c', here) = line_pos c in
    let above = down_loop c' rest (i + 1) cpos (pos end) in
    let current = down_loop c' rest (i + 1) (c'.pos -ℤ begin) (pos end) in
    if ltb i here then above else if i == here then current else land c' cpos begin (pos end)

unfoldable pub move_line_down : Cursor → Cursor
unfolding down_loop
move_line_down c = down_loop c (newlines c.line) 0 (pos 0) minus_one

-- The newline in front of a line, which is -1 for the first one.
unfoldable pub line_begin : List (ℕ × ℕ) → ℕ → Option ℤ
line_begin ends zero = some minus_one
line_begin ends (suc i) = do (end, after) ← get_elem? ends i; some (pos end)

-- The loop of `moveLineUp`: the lines below `i` are left.
unfoldable pub up_loop : Cursor → List (ℕ × ℕ) → ℤ → ℕ → Option Cursor
unfolding line_begin
up_loop c ends cpos zero = some c
up_loop c ends cpos (suc i) =
    let (c', here) = line_pos c in
    let below = up_loop c' ends cpos i in
    elim (get_elem? ends i) [
      | none ↦ none
      | some (end, after) ↦ if ltb here i then below else elim (line_begin ends i) [
        | none ↦ none
        | some begin ↦
            let current = up_loop c' ends (c'.pos -ℤ begin) i in
            if i == here
            then current
            else some (land c' cpos begin (if ltb 0 i then pos end else pos end -ℤ pos 1))
      ]
    ]

unfoldable pub move_line_up : Cursor → Option Cursor
unfolding up_loop
move_line_up c = up_loop c (newlines c.line) (pos 0) (length (newlines c.line))

-- The two loops of `LineMove`.
unfoldable pub repeat_move : (Cursor → Option Cursor) → ℕ → Cursor → Option Cursor
repeat_move one zero c = some c
repeat_move one (suc n) c = do d ← one c; c' ← check_command d; repeat_move one n c'

unfoldable pub line_move : Cursor → ℤ → Option Cursor
line_move c count =
    let c' = check_append c in
    if length (newlines c'.line) == 1 || eqb_ℤ count (pos 0)
    then some (check_append c')
    else if ltb_ℤ count (pos 0)
    then (do d ← repeat_move move_line_up (neg_part count) c'; some (check_append d))
    else do
      d ← repeat_move (λ b. some (move_line_down b)) (pos_part count) c'
      some (check_append d)

-- The loops of `AtBeginningOfLine` and `AtEndOfLine`: does a line end at the position?
unfoldable pub ends_at : List (ℕ × ℕ) → ℤ → Bool
ends_at [] at = false
ends_at ((end, after) ∷ rest) at = eqb_ℤ (pos end) at || ends_at rest at

unfoldable pub at_beginning_of_line : Cursor → Bool
at_beginning_of_line c = eqb_ℤ c.pos (pos 0) || ends_at (newlines c.line) (c.pos -ℤ pos 1)

unfoldable pub at_end_of_line : Cursor → Bool
at_end_of_line c =
    if ltb_ℤ c.pos (len c.line -ℤ pos 1) then ends_at (newlines c.line) (c.pos +ℤ pos 1) else true
