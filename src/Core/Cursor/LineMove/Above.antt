-- ===== src/Core/Cursor/LineMove/Above.antt =====
-- Where the motion to the line above leads (internal/core/cursor.go).
use readline.Base.{
  ℕ, zero, suc, ◌+◌, ◌≤◌, ◌<◌, ◌≡◌, refl, sym, ap, ◌∙◌, true, false, some, List, [], ◌∷◌, ◌++◌,
  ◌==◌, ltb, length, get_elem?, is_empty, arith, append_assoc, length-append, if◌then◌else◌,
  get_elem?_lt, get_elem?-append, Bool-cases, inl, inr,
}
use readline.Base.Int.{ℤ, pos, ltb_ℤ, ◌+ℤ◌, ◌-ℤ◌, int_laws}
use readline.Core.Line.{Line}
use readline.Core.Search.Find.{Absent}
use readline.Core.Cursor.{Cursor}
use readline.Core.Cursor.Checks.{IsValid}
use readline.Core.Cursor.Command.{cursor_at}
use readline.Core.Cursor.LineMove.{line_index, line_pos, land, line_begin, up_loop, move_line_up}
use readline.Core.Cursor.LineMove.Layout.{
  text_of, AreLines, size, EndsLine, ends_of, length-ends_of, line_index-ends_of,
}
use readline.Core.Cursor.LineMove.Below.{buffer_of, newlines-buffer_of, line_pos-at, land-at}

get_elem?-next :
    {A : Type 0} (xs r : List A) (y z : A) (i : ℕ)
    → i ≡ length xs
    → get_elem? (xs ++ y ∷ (z ∷ r)) (suc i) ≡ some z
get_elem?-next xs r y z i e =
    ap (λ l. get_elem? l (suc i)) (sym (append_assoc xs (y ∷ []) (z ∷ r)))
    ∙ get_elem?-append (xs ++ y ∷ []) r z (suc i) (omega (arith, length-append xs (y ∷ [])))

-- The newline in front of a line that has others above it.
line_begin-ends_of :
    (k : ℕ) (x : Line) (above : List Line) (rest : List (ℕ × ℕ))
    → (e : ℕ) × (after : ℕ) × (get_elem? (ends_of k (x ∷ above) ++ rest) (length above)
        ≡ some (e, after))
      × (suc e ≡ k + size (x ∷ above))
line_begin-ends_of k x [] rest =
    (k + length x, k + length x + 1, refl, omega (arith, length-append x (b'\n' ∷ [])))
line_begin-ends_of k x (x' ∷ above) rest =
    let (e, after, found, whole) = line_begin-ends_of (k + length x + 1) x' above rest in
    (e, after, found, whole ∙ omega (arith, length-append x (b'\n' ∷ text_of (x' ∷ above))))

-- The loop of `moveLineUp` passes the lines below that of the cursor.
up_loop-below :
    (c : Cursor) (here : ℕ) (ends : List (ℕ × ℕ)) (cpos : ℤ) (n : ℕ)
    → line_pos c ≡ (c, here)
    → suc here ≤ n
    → n ≤ length ends
    → up_loop c ends cpos n ≡ up_loop c ends cpos (suc here)
unfolding up_loop
up_loop-below c here ends cpos zero at low h = absurd (omega arith)
up_loop-below c here ends cpos (suc n) at low h = elim (Bool-cases (ltb here n)) [
  | inl k ↦
      let (end, e) = get_elem?_lt ends n (omega arith) in
      let step : up_loop c ends cpos (suc n) ≡ up_loop c ends cpos n =
        rw (up_loop, e, at, k) refl in
      step ∙ up_loop-below c here ends cpos n at (ground (arith, k)) (omega arith)
  | inr k ↦ ap (λ j. up_loop c ends cpos (suc j)) (ground (arith, k))
]

-- Then it takes the column, and lands in the line above.
up_loop-turn :
    (c : Cursor) (ends : List (ℕ × ℕ)) (i end after : ℕ) (cpos begin : ℤ)
    → line_pos c ≡ (c, i)
    → get_elem? ends i ≡ some (end, after)
    → line_begin ends i ≡ some begin
    → up_loop c ends cpos (suc i) ≡ up_loop c ends (c.pos -ℤ begin) i
unfolding up_loop
up_loop-turn c ends i end after cpos begin at e start =
    let same : (line_pos c).0 ≡ c = ap (λ p. p.0) at in
    let here : (line_pos c).1 ≡ i = ap (λ p. p.1) at in
    let now : ltb (line_pos c).1 i ≡ false = ground (arith, here) in
    let met : (i == (line_pos c).1) ≡ true = ground (arith, here) in
    rw (up_loop, e, now, start, met, same) refl

up_loop-land :
    (c : Cursor) (here : ℕ) (ends : List (ℕ × ℕ)) (i end after : ℕ) (cpos begin : ℤ)
    → line_pos c ≡ (c, here)
    → i < here
    → get_elem? ends i ≡ some (end, after)
    → line_begin ends i ≡ some begin
    → up_loop c ends cpos (suc i)
      ≡ some (land c cpos begin (if ltb 0 i then pos end else pos end -ℤ pos 1))
unfolding up_loop
up_loop-land c here ends i end after cpos begin at low e start =
    let same : (line_pos c).0 ≡ c = ap (λ p. p.0) at in
    let line : (line_pos c).1 ≡ here = ap (λ p. p.1) at in
    let now : ltb (line_pos c).1 i ≡ false = ground (arith, line, low) in
    let other : (i == (line_pos c).1) ≡ false = ground (arith, line, low) in
    rw (up_loop, e, now, start, other, same) refl

-- The newline in front of line `x`, at the place where its index says.
unfoldable front_of : List Line → ℤ
front_of above = pos (size above) -ℤ pos 1

line_begin-above :
    (above : List Line) (rest : List (ℕ × ℕ))
    → line_begin (ends_of 0 above ++ rest) (length above) ≡ some (front_of above)
unfolding line_begin front_of
line_begin-above [] rest = ap some (grind int_laws)
line_begin-above (x ∷ above) rest =
    let (e, after, found, whole) = line_begin-ends_of 0 x above rest in
    let front : pos e ≡ pos (size (x ∷ above)) -ℤ pos 1 = grind (int_laws, whole) in
    rw (found) (ap some front)

-- Where the motion up lands in a line: in the first one of the buffer the end is its last rune.
abbrev pub up_target : List Line → Line → ℕ → ℤ
up_target above x column =
    if is_empty above
    then (if ltb (column + 1) (length x) then pos column else pos (length x) -ℤ pos 1)
    else pos (size above + (if ltb column (length x) then column else length x))

land-up :
    (above : List Line) (x : Line) (i column : ℕ) (m : ℤ) (l : Line)
    → land (cursor_at i m l) (pos (column + 1)) (front_of above) (
        if ltb 0 (length above)
        then pos (size above + length x)
        else pos (size above + length x) -ℤ pos 1)
      ≡ record (cursor_at i m l) { pos = up_target above x column }
unfolding front_of land
land-up [] x i column m l =
    let n = length x in
    let last : pos (0 + n) -ℤ pos 1 ≡ pos n -ℤ pos 1 = grind int_laws in
    let step : (pos n -ℤ pos 1) -ℤ (pos 0 -ℤ pos 1) ≡ pos n = grind int_laws in
    let back : (pos 0 -ℤ pos 1) +ℤ pos (column + 1) ≡ pos column = grind int_laws in
    elim (Bool-cases (ltb (column + 1) n)) [
      | inl k ↦
          let fits : ltb_ℤ (pos (column + 1)) (pos n) ≡ true = ground (arith, k) in
          rw (last, land, step, fits, back, k) refl
      | inr k ↦
          let short : ltb_ℤ (pos (column + 1)) (pos n) ≡ false = ground (arith, k) in
          rw (last, land, step, short, k) refl
    ]
land-up (w ∷ above) x i column m l =
    let more : ltb 0 (length (w ∷ above)) ≡ true = ground arith in
    rw more (land-at i m l column (size (w ∷ above)) (length x))

-- From a column of the line `y` the motion up never panics, and leads to the same column of the line
-- `x` above it, or to its end; in the first line of the buffer the end is its last rune, which is -1 in
-- an empty one. The cursor is to be valid.
pub move_line_up_lem :
    (above : List Line) (x y rest : Line) (column : ℕ) (m : ℤ)
    → AreLines above
    → Absent b'\n' x
    → Absent b'\n' y
    → EndsLine rest
    → column ≤ length y
    → IsValid (cursor_at (size above + length x + 1 + column) m (buffer_of above x y rest))
    → move_line_up (cursor_at (size above + length x + 1 + column) m (buffer_of above x y rest))
      ≡ some (record (cursor_at 0 m (buffer_of above x y rest)) { pos = up_target above x column })
unfolding move_line_up line_index line_begin
move_line_up_lem above x y rest column m a b c e h v =
    let l = buffer_of above x y rest in
    let first = size above + length x in
    let second = first + 1 + length y in
    let at = first + 1 + column in
    let start = cursor_at at m l in
    let (post, newline) = newlines-buffer_of above x y rest a b c e in
    let left = (first, first + 1) ∷ ((second, second + 1) ∷ post) in
    let ends = ends_of 0 above ++ left in
    let here : line_index ends at 0 ≡ suc (length above) =
      line_index-ends_of 0 above left at 0 (omega arith)
      ∙ (let passed : ltb first at ≡ true = ground arith in
          let stop : ltb second at ≡ false = ground (arith, h) in
          rw (passed, stop) (omega arith)) in
    let on = line_pos-at at m l ends (suc (length above)) v newline here in
    let count = length-ends_of 0 above in
    let found : get_elem? ends (length above) ≡ some (first, first + 1) =
      get_elem?-append (ends_of 0 above) ((second, second + 1) ∷ post) (first, first + 1)
        (length above) (sym count) in
    let long : suc (suc (length above)) ≤ length ends =
      omega (arith, length-append (ends_of 0 above) left, count) in
    let below : get_elem? ends (suc (length above)) ≡ some (second, second + 1) =
      get_elem?-next (ends_of 0 above) post (first, first + 1) (second, second + 1) (length above)
        (sym count) in
    let front : line_begin ends (suc (length above)) ≡ some (pos first) = rw found refl in
    let column_of : pos at -ℤ pos first ≡ pos (column + 1) = grind int_laws in
    ap (λ r. up_loop start r (pos 0) (length r)) newline
    ∙ up_loop-below start (suc (length above)) ends (pos 0) (length ends) on long (omega arith)
    ∙ up_loop-turn start ends (suc (length above)) second (second + 1) (pos 0) (pos first) on below
        front
    ∙ ap (λ k. up_loop start ends k (suc (length above))) column_of
    ∙ up_loop-land start (suc (length above)) ends (length above) first (first + 1)
        (pos (column + 1)) (front_of above) on (omega arith) found (line_begin-above above left)
    ∙ ap some (land-up above x at column m l)
