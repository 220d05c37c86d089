-- ===== src/Core/Cursor/LineMove/Below.antt =====
-- Where the motion to the line below leads (internal/core/cursor.go).
use readline.Base.{
  ℕ, suc, ◌+◌, ◌≤◌, ◌≡◌, refl, ap, ◌∙◌, true, false, List, [], ◌∷◌, ◌++◌, ◌==◌, ltb, length, arith,
  length-append, if◌then◌else◌, Bool-cases, inl, inr,
}
use readline.Base.Int.{ℤ, pos, minus_one, ltb_ℤ, ◌+ℤ◌, ◌-ℤ◌, int_laws}
use readline.Core.Line.{Line}
use readline.Core.Search.{newlines}
use readline.Core.Search.Find.{Absent}
use readline.Core.Cursor.{Cursor}
use readline.Core.Cursor.Checks.{IsValid, check_append_id}
use readline.Core.Cursor.Command.{cursor_at}
use readline.Core.Cursor.LineMove.{line_index, line_pos, land, down_loop, move_line_down}
use readline.Core.Cursor.LineMove.Lines.{line_ends, newlines-line_ends}
use readline.Core.Cursor.LineMove.Layout.{
  text_of, AreLines, size, EndsLine, ends_of, line_ends-line, line_ends-last, line_ends-text_of,
  line_index-ends_of,
}

-- A buffer with a line `x`, the line `y` below it, and what is around them.
abbrev pub buffer_of : List Line → Line → Line → Line → Line
buffer_of above x y rest = text_of above ++ (x ++ b'\n' ∷ (y ++ rest))

pub newlines-buffer_of :
    (above : List Line) (x y rest : Line)
    → AreLines above
    → Absent b'\n' x
    → Absent b'\n' y
    → EndsLine rest
    → (post : List (ℕ × ℕ)) × (newlines (buffer_of above x y rest)
        ≡ ends_of 0 above
          ++ (size above + length x, size above + length x + 1)
            ∷ ((size above + length x + 1 + length y, size above + length x + 1 + length y + 1)
                ∷ post))
newlines-buffer_of above x y rest a b c e =
    let zero_size : 0 + size above ≡ size above = omega arith in
    let (post, last) = line_ends-last (size above + length x + 1) y rest c e in
    (
      post,
      newlines-line_ends (buffer_of above x y rest)
          ∙ line_ends-text_of 0 above (x ++ b'\n' ∷ (y ++ rest)) a
          ∙ ap (λ k. ends_of 0 above ++ line_ends k (x ++ b'\n' ∷ (y ++ rest))) zero_size
          ∙ ap (ends_of 0 above ++◌) (
              line_ends-line (size above) x (y ++ rest) b
              ∙ ap ((size above + length x, size above + length x + 1) ∷◌) last),
    )

-- The line that the cursor is on, from the ends of the lines.
pub line_pos-at :
    (i : ℕ) (m : ℤ) (l : Line) (ends : List (ℕ × ℕ)) (here : ℕ)
    → IsValid (cursor_at i m l)
    → newlines l ≡ ends
    → line_index ends i 0 ≡ here
    → line_pos (cursor_at i m l) ≡ (cursor_at i m l, here)
unfolding line_pos
line_pos-at i m l ends here v e at = rw (check_append_id (cursor_at i m l) v, e, at) refl

-- The loop of `moveLineDown` passes the lines above that of the cursor.
down_loop-above :
    (c : Cursor) (here k : ℕ) (above : List Line) (rest : List (ℕ × ℕ)) (i : ℕ) (cpos : ℤ)
    → line_pos c ≡ (c, here)
    → i + length above ≤ here
    → down_loop c (ends_of k above ++ rest) i cpos (pos k -ℤ pos 1)
      ≡ down_loop c rest (i + length above) cpos (pos (k + size above) -ℤ pos 1)
unfolding down_loop
down_loop-above c here k [] rest i cpos at h =
    let same : i + 0 ≡ i = omega arith in
    let start : k + 0 ≡ k = omega arith in rw (same, start) refl
down_loop-above c here k (x ∷ above) rest i cpos at h =
    let before : ltb i here ≡ true = ground (arith, h) in
    let next : pos (k + length x) ≡ pos (k + length x + 1) -ℤ pos 1 = grind int_laws in
    let index : i + suc (length above) ≡ (i + 1) + length above = omega arith in
    let whole : k + length (x ++ b'\n' ∷ text_of above) ≡ (k + length x + 1) + size above =
      omega (arith, length-append x (b'\n' ∷ text_of above)) in
    rw (down_loop, at, before, index, whole, next)
      (down_loop-above c here (k + length x + 1) above rest (i + 1) cpos at (omega arith))

-- Then it takes the column, and lands in the next line.
down_loop-here :
    (c : Cursor) (here first second : ℕ) (after after' : ℕ) (post : List (ℕ × ℕ)) (cpos begin : ℤ)
    → line_pos c ≡ (c, here)
    → down_loop c ((first, after) ∷ ((second, after') ∷ post)) here cpos begin
      ≡ land c (c.pos -ℤ begin) (pos first) (pos second)
unfolding down_loop
down_loop-here c here first second after after' post cpos begin at =
    let now : ltb here here ≡ false = ground arith in
    let same : (here == here) ≡ true = ground arith in
    let later : ltb (here + 1) here ≡ false = ground arith in
    let other : ((here + 1) == here) ≡ false = ground arith in
    rw (down_loop, at, now, same, at, later, other) refl

-- The column of the cursor, in a line that may be shorter.
pub land-at :
    (i : ℕ) (m : ℤ) (l : Line) (column begin size : ℕ)
    → land (cursor_at i m l) (pos (column + 1)) (pos begin -ℤ pos 1) (pos (begin + size))
      ≡ cursor_at (begin + (if ltb column size then column else size)) m l
unfolding land
land-at i m l column begin size =
    let step : pos (begin + size) -ℤ (pos begin -ℤ pos 1) ≡ pos (size + 1) = grind int_laws in
    let back : (pos begin -ℤ pos 1) +ℤ pos (column + 1) ≡ pos (begin + column) = grind int_laws in
    elim (Bool-cases (ltb column size)) [
      | inl k ↦
          let fits : ltb_ℤ (pos (column + 1)) (pos (size + 1)) ≡ true = ground (arith, k) in
          rw (land, step, fits, back, k) refl
      | inr k ↦
          let short : ltb_ℤ (pos (column + 1)) (pos (size + 1)) ≡ false = ground (arith, k) in
          rw (land, step, short, k) refl
    ]

-- From a column of the line `x` the motion down leads to the same column of the line `y` below it, or to
-- the end of `y` if it is shorter; the cursor is to be valid.
pub move_line_down_lem :
    (above : List Line) (x y rest : Line) (column : ℕ) (m : ℤ)
    → AreLines above
    → Absent b'\n' x
    → Absent b'\n' y
    → EndsLine rest
    → column ≤ length x
    → IsValid (cursor_at (size above + column) m (buffer_of above x y rest))
    → move_line_down (cursor_at (size above + column) m (buffer_of above x y rest))
      ≡ cursor_at
          (size above + length x + 1 + (if ltb column (length y) then column else length y))
          m
          (buffer_of above x y rest)
unfolding move_line_down line_index
move_line_down_lem above x y rest column m a b c e h v =
    let l = buffer_of above x y rest in
    let at = size above + column in
    let start = cursor_at at m l in
    let first = size above + length x in
    let second = first + 1 + length y in
    let (post, ends) = newlines-buffer_of above x y rest a b c e in
    let left = (first, first + 1) ∷ ((second, second + 1) ∷ post) in
    let stop : ltb first at ≡ false = ground (arith, h) in
    let here : line_index (ends_of 0 above ++ left) at 0 ≡ length above =
      line_index-ends_of 0 above left at 0 (omega arith) ∙ rw stop (omega arith) in
    let on = line_pos-at at m l _ (length above) v ends here in
    let column_of : pos at -ℤ (pos (0 + size above) -ℤ pos 1) ≡ pos (column + 1) = grind int_laws in
    let begin : pos first ≡ pos (first + 1) -ℤ pos 1 = grind int_laws in
    let index : 0 + length above ≡ length above = omega arith in
    let none_before : minus_one ≡ pos 0 -ℤ pos 1 = grind int_laws in
    ap (λ r. down_loop start r 0 (pos 0) minus_one) ends
    ∙ ap (down_loop start (ends_of 0 above ++ left) 0 (pos 0)) none_before
    ∙ down_loop-above start (length above) 0 above left 0 (pos 0) on (omega arith)
    ∙ ap (λ k. down_loop start left k (pos 0) (pos (0 + size above) -ℤ pos 1)) index
    ∙ down_loop-here start (length above) first second (first + 1) (second + 1) post (pos 0) _ on
    ∙ ap (λ k. land start k (pos first) (pos second)) column_of
    ∙ ap (λ k. land start (pos (column + 1)) k (pos second)) begin
    ∙ land-at at m l column (first + 1) (length y)
