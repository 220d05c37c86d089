-- ===== src/Core/Line.antt =====
-- The edits of type `Line` (internal/core/line.go): a line is the slice of its runes. Positions are
-- Go ints, read as ℤ. A call of `slices.Delete` that panics is `none`.
pub mod Bounds
pub mod Edits
use readline.Base.{
  ℕ, zero, suc, ◌-◌, Bool, true, false, not, ◌&&◌, ◌||◌, Option, none, some, List, ◌++◌, ◌==◌,
  if◌then◌else◌, length, get_or, take, drop,
}
use readline.Base.Int.{ℤ, pos, pos_part, minus_one, ltb_ℤ, eqb_ℤ, ◌-ℤ◌, ◌+ℤ◌}

abbrev pub Line : Type 0
Line = List ℕ

-- `Len`
abbrev pub len : Line → ℤ
len l = pos (length l)

-- `slices.Insert` at a valid index.
abbrev pub insert_slice : Line → ℕ → Line → Line
insert_slice l i vs = take i l ++ (vs ++ drop i l)

-- `slices.Delete`, which panics if `i` and `j` are not the bounds of a slice of the line.
unfoldable pub delete_slice : Line → ℤ → ℤ → Option Line
delete_slice l i j =
    if ltb_ℤ i (pos 0) || (ltb_ℤ j i || ltb_ℤ (len l) j)
    then none
    else some (take (pos_part i) l ++ drop (pos_part j) l)

-- The loop of `Insert`: where the runes end when the null runes at the end are left off.
unfoldable pub end_of : Line → ℕ → ℕ
end_of chars zero = zero
end_of chars (suc e) = if get_or chars e 1 == 0 then end_of chars e else suc e

unfoldable pub insert : Line → ℤ → Line → Line
insert l at chars =
    let kept = take (end_of chars (length chars)) chars in
    if ltb_ℤ at (pos 0) || ltb_ℤ (len l) at then l else insert_slice l (pos_part at) kept

-- The two positions in order, and whether either is valid.
unfoldable pub check_range : Line → ℤ → ℤ → ℤ × ℤ × Bool
check_range l b e =
    let e' = if ltb_ℤ (len l) e then len l else e in
    let b' = if ltb_ℤ b (pos 0) then pos 0 else b in
    if eqb_ℤ b minus_one && eqb_ℤ e minus_one
    then (minus_one, minus_one, false)
    else if ltb_ℤ minus_one e' && ltb_ℤ e' b'
    then (e', b', true)
    else (b', e', true)

unfoldable pub check_pos_range : Line → ℤ → ℤ
check_pos_range l at = if ltb_ℤ at (pos 0) then pos 0 else if ltb_ℤ (len l) at then len l else at

unfoldable pub insert_between : Line → ℤ → ℤ → Line → Option Line
unfolding check_range delete_slice insert
insert_between l b e chars =
    let (b', e', valid) = check_range l b e in
    if not valid
    then some l
    else if eqb_ℤ e' minus_one
    then some (insert l b' chars)
    else elim (delete_slice l b' e') [ none ↦ none | some rest ↦ some (insert rest b' chars) ]

unfoldable pub cut : Line → ℤ → ℤ → Option Line
unfolding check_range delete_slice
cut l b e =
    let (b', e', valid) = check_range l b e in
    if not valid then some l else delete_slice l b' (if eqb_ℤ e' minus_one then len l else e')

unfoldable pub cut_rune : Line → ℤ → Option Line
unfolding delete_slice ◌-ℤ◌ ◌+ℤ◌
cut_rune l at =
    if ltb_ℤ at (pos 0) || (ltb_ℤ (len l) at || length l == 0)
    then some l
    else if eqb_ℤ at (len l)
    then delete_slice l (at -ℤ pos 1) at
    else delete_slice l at (at +ℤ pos 1)
