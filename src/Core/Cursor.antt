-- ===== src/Core/Cursor.antt =====
-- The cursor (internal/core/cursor.go) with the line that it points to. Its methods correct the
-- position as they go, so those that only read return the corrected cursor too. An index out of
-- range panics, which is `none`.
pub mod Checks
pub mod Command
pub mod Motion
pub mod LineMove
use readline.Base.{
  ℕ, zero, suc, ◌+◌, Bool, true, false, not, ◌&&◌, ◌||◌, Option, none, some, List, [], ◌∷◌, ◌==◌,
  ltb, if◌then◌else◌, length, get_elem?, set, ◌>>=◌, eqb,
}
use readline.Base.Int.{ℤ, pos, pos_part, minus_one, ltb_ℤ, eqb_ℤ, ◌+ℤ◌, ◌-ℤ◌}
use readline.Core.Line.{Line, len, insert}
use readline.Core.Search.{find, newlines}

pub record Cursor : Type 0 where
  pub pos : ℤ
  pub mark : ℤ
  pub line : Line

-- `NewCursor`
unfoldable pub new_cursor : Line → Cursor
new_cursor l = record { pos = pos 0; mark = minus_one; line = l }

-- `CheckAppend`, in two parts.
unfoldable pub checked_pos : Cursor → ℤ
checked_pos c =
    let p = if ltb_ℤ c.pos (pos 0) then pos 0 else c.pos in
    if ltb_ℤ (len c.line) p then len c.line else p

unfoldable pub checked_mark : Cursor → ℤ
unfolding ◌-ℤ◌
checked_mark c =
    let m = if ltb_ℤ c.mark minus_one then minus_one else c.mark in
    if ltb_ℤ (len c.line -ℤ pos 1) m then minus_one else m

unfoldable pub check_append : Cursor → Cursor
unfolding checked_pos checked_mark
check_append c = record c { pos = checked_pos c; mark = checked_mark c }

unfoldable pub set_pos : Cursor → ℤ → Cursor
unfolding check_append
set_pos c at = check_append (record c {
  pos = if ltb_ℤ at (pos 0) then pos 0 else if ltb_ℤ (len c.line) at then len c.line else at;
})

-- `Pos`
unfoldable pub get_pos : Cursor → Cursor × ℤ
unfolding check_append
get_pos c = let c' = check_append c in (c', c'.pos)

unfoldable pub inc : Cursor → Cursor
unfolding ◌+ℤ◌
inc c = if ltb_ℤ c.pos (len c.line) then record c { pos = c.pos +ℤ pos 1 } else c

unfoldable pub dec : Cursor → Cursor
unfolding ◌-ℤ◌
dec c = if ltb_ℤ (pos 0) c.pos then record c { pos = c.pos -ℤ pos 1 } else c

unfoldable pub move : Cursor → ℤ → Cursor
unfolding check_append ◌+ℤ◌
move c offset = check_append (record c { pos = c.pos +ℤ offset })

-- A read of the line at a Go int.
unfoldable pub index : Line → ℤ → Option ℕ
index l at = if ltb_ℤ at (pos 0) then none else get_elem? l (pos_part at)

-- `Char`: no rune is 0.
unfoldable pub char : Cursor → Cursor × ℕ
unfolding check_append
char c =
    let c' = check_append c in
    (c', elim (get_elem? c'.line (pos_part c'.pos)) [ none ↦ 0 | some r ↦ r ])

unfoldable pub replace_with : Cursor → ℕ → Cursor
replace_with c r =
    let c' = check_append c in
    if eqb_ℤ c'.pos (len c'.line)
    then record c' { line = insert c'.line (len c'.line) (r ∷ []) }
    else record c' { line = set c'.line (pos_part c'.pos) r }

unfoldable pub insert_at : Cursor → Line → Cursor
insert_at c r =
    let c' = check_append c in record c' { line = insert c'.line c'.pos r; pos = c'.pos +ℤ len r }

unfoldable pub on_space : Cursor → Cursor × Bool
on_space c = let (c', r) = char c in (c', (r == b' ') || ((r == b'\n') || (r == b'\t')))

-- The loop of `ToFirstNonSpace`; `none` means that the rounds ran out.
unfoldable pub skip_space : Bool → Cursor → ℕ → Option Cursor
skip_space forward c zero = none
skip_space forward c (suc rounds) =
    let (c', space) = on_space c in
    let moved = record c' { pos = if forward then c'.pos +ℤ pos 1 else c'.pos -ℤ pos 1 } in
    let later = skip_space forward moved rounds in
    if not space then some c' else if ltb_ℤ (pos 0) moved.pos then later else some moved

unfoldable pub to_first_non_space : Cursor → Bool → Option Cursor
to_first_non_space c forward =
    let out = not (ltb_ℤ c.pos (len c.line)) in
    let c' = if out then record c { pos = len c.line -ℤ pos 1 } else c in
    let forward' = if out then false else forward in
    if length c.line == 0
    then some c
    else if not forward' && eqb_ℤ c'.pos (pos 0)
    then some (check_append c')
    else do moved ← skip_space forward' c' (length c.line + 2); some (check_append moved)

unfoldable pub on_empty_line : Cursor → Option Bool
on_empty_line c =
    if length c.line == 0
    then some true
    else if eqb_ℤ c.pos (pos 0)
    then (do r ← index c.line c.pos; some (r == b'\n'))
    else if eqb_ℤ c.pos (len c.line)
    then (do r ← index c.line (c.pos -ℤ pos 1); some (r == b'\n'))
    else do
      under ← index c.line c.pos
      before ← index c.line (c.pos -ℤ pos 1)
      some ((under == b'\n') && (before == b'\n'))

-- `CheckCommand`: back from the end of the line, and back from a newline, unless the line is empty.
unfoldable pub leave_end : Cursor → Option Cursor
leave_end c =
    if eqb_ℤ c.pos (len c.line)
    then (do stays ← on_empty_line c; some (if stays then c else record c { pos = c.pos -ℤ pos 1 }))
    else some c

unfoldable pub leave_newline : Cursor → Option Cursor
leave_newline c =
    let (c', r) = char c in
    if not (ltb 0 (length c.line) && ltb_ℤ c.pos (len c.line))
    then some c
    else if r == b'\n'
    then (do stays ← on_empty_line c'; some (if stays then c' else dec c'))
    else some c'

unfoldable pub check_command : Cursor → Option Cursor
unfolding leave_end leave_newline
check_command c = do c' ← leave_end (check_append c); leave_newline c'

unfoldable pub beginning_of_line : Cursor → Option Cursor
beginning_of_line c =
    let newline_pos = find c.line b'\n' c.pos false in
    check_command
      (record c { pos = if eqb_ℤ newline_pos minus_one then pos 0 else newline_pos +ℤ pos 1 })

unfoldable pub end_of_line : Cursor → Option Cursor
end_of_line c = do
  empty ← on_empty_line c
  let newline_pos = find c.line b'\n' c.pos true
  let target = if eqb_ℤ newline_pos minus_one then len c.line -ℤ pos 1 else newline_pos -ℤ pos 1
  check_command (if empty then c else record c { pos = target })

unfoldable pub end_of_line_append : Cursor → Option Cursor
end_of_line_append c = do
  empty ← on_empty_line c
  let newline_pos = find c.line b'\n' (c.pos -ℤ pos 1) true
  let target = if eqb_ℤ newline_pos minus_one then len c.line else newline_pos
  some (check_append (if empty then c else record c { pos = target }))

unfoldable pub set_mark : Cursor → Cursor
unfolding check_append
set_mark c = let c' = check_append c in record c' { mark = c'.pos }

unfoldable pub reset_mark : Cursor → Cursor
reset_mark c = record c { mark = minus_one }
