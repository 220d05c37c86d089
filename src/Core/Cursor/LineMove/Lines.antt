-- ===== src/Core/Cursor/LineMove/Lines.antt =====
-- What the motions between lines do (internal/core/cursor.go).
use native.Mathlib.Numerals.{sub-one}
use readline.Base.{
  ℕ, zero, suc, ◌+◌, ◌-◌, ◌≤◌, ◌<◌, ◌≡◌, ◌⊎◌, ◌↔◌, refl, inl, inr, true, false, List, [], ◌∷◌, ◌++◌,
  arith, length, get_elem?, take, some, ◌∙◌, ap, ◌==◌, Bool-cases, ◌>>=◌, ◌||◌, if◌then◌else◌,
  get_elem?_lt, ltb, Option,
}
use readline.Base.Int.{
  ℤ, pos, pos_part, neg_part, minus_one, -ℤ-one, +ℤ-pos, -ℤ_parts, ltb_ℤ, eqb_ℤ, ◌-ℤ◌,
}
use readline.Core.Line.{Line, len}
use readline.Core.Search.{newlines, newlines_from, lines}
use readline.Core.Cursor.{Cursor, check_append}
use readline.Core.Cursor.Checks.{IsValid, check_append-IsValid, check_append_id, check_append-line}
use readline.Core.Cursor.Command.{check_command_lem, cursor_at}
use readline.Core.Cursor.LineMove.{
  line_index, line_pos, land, line_begin, down_loop, up_loop, move_line_down, move_line_up,
  repeat_move, line_move, ends_at, at_beginning_of_line, at_end_of_line,
}

-- `newlines` of a text that starts at index `k`, with the end of the text as its last entry.
abbrev pub line_ends : ℕ → Line → List (ℕ × ℕ)
line_ends k [] = (k, k + 1) ∷ []
line_ends k (x ∷ xs) =
    if x == b'\n' then (k, k + 1) ∷ line_ends (k + 1) xs else line_ends (k + 1) xs

newlines_from-line_ends :
    (k n : ℕ) (l : Line) → n ≡ k + length l → newlines_from k l ++ (n, n + 1) ∷ [] ≡ line_ends k l
unfolding newlines_from
newlines_from-line_ends k n [] h = ground arith
newlines_from-line_ends k n (x ∷ xs) h =
    ground (arith, newlines_from-line_ends (k + 1) n xs (omega arith))

pub newlines-line_ends : (l : Line) → newlines l ≡ line_ends 0 l
unfolding newlines
newlines-line_ends l = newlines_from-line_ends 0 (length l) l (omega arith)

line_index_before : (k : ℕ) (l : Line) (at n : ℕ) → at ≤ k → line_index (line_ends k l) at n ≡ n
unfolding line_index
line_index_before k [] at n h = ground arith
line_index_before k (x ∷ xs) at n h = ground (arith, line_index_before (k + 1) xs at n)

line_index-lines :
    (k : ℕ) (l : Line) (i n at : ℕ)
    → i ≤ length l
    → at ≡ k + i
    → line_index (line_ends k l) at n ≡ n + lines (take i l)
unfolding line_index lines
line_index-lines k [] zero n at h e = ground arith
line_index-lines k [] (suc i) n at h e = absurd (omega arith)
line_index-lines k (x ∷ xs) zero n at h e =
    line_index_before k (x ∷ xs) at n (omega arith) ∙ omega arith
line_index-lines k (x ∷ xs) (suc i) n at h e =
    ground (arith, line_index-lines (k + 1) xs i n at, line_index-lines (k + 1) xs i (n + 1) at)

-- `LinePos` is the number of newlines in front of the cursor.
line_pos_lem :
    (i : ℕ) (m : ℤ) (l : Line)
    → IsValid (cursor_at i m l)
    → line_pos (cursor_at i m l) ≡ (cursor_at i m l, lines (take i l))
unfolding line_pos
line_pos_lem i m l v =
    rw (check_append_id (cursor_at i m l) v, newlines-line_ends l)
      (ap (λ n. (cursor_at i m l, n))
        (line_index-lines 0 l i 0 i (omega (arith, v.pos_to)) (omega arith) ∙ omega arith))

ends_at_before : (k : ℕ) (l : Line) (at : ℕ) → at < k → ends_at (line_ends k l) (pos at) ≡ false
unfolding ends_at
ends_at_before k [] at h = ground arith
ends_at_before k (x ∷ xs) at h = ground (arith, ends_at_before (k + 1) xs at)

ends_at-minus_one : (k : ℕ) (l : Line) → ends_at (line_ends k l) minus_one ≡ false
unfolding ends_at
ends_at-minus_one k [] = ground arith
ends_at-minus_one k (x ∷ xs) = ground (arith, ends_at-minus_one (k + 1) xs)

ends_at-line_ends :
    (k : ℕ) (l : Line) (i at : ℕ)
    → at ≡ k + i
    → (ends_at (line_ends k l) (pos at) ≡ true) ↔ ((get_elem? l i ≡ some b'\n') ⊎ (i ≡ length l))
unfolding ends_at
ends_at-line_ends k [] i at e = ground arith
ends_at-line_ends k (x ∷ xs) zero at e = ground (arith, ends_at_before (k + 1) xs at)
ends_at-line_ends k (x ∷ xs) (suc i) at e = ground (arith, ends_at-line_ends (k + 1) xs i at)

-- A valid cursor is at the beginning of a line exactly if it is at the start of the buffer or behind
-- a newline.
at_beginning_of_line_iff :
    (i : ℕ) (m : ℤ) (l : Line)
    → i ≤ length l
    → (at_beginning_of_line (cursor_at i m l) ≡ true)
      ↔ ((i ≡ 0) ⊎ ((0 < i) × (get_elem? l (i - 1) ≡ some b'\n')))
unfolding at_beginning_of_line
at_beginning_of_line_iff zero m l h = ground arith
at_beginning_of_line_iff (suc j) m l h =
    rw (newlines-line_ends l, -ℤ-one, sub-one)
      (ground (arith, ends_at-line_ends 0 l j j (omega arith)))

-- A valid cursor is at the end of a line exactly if it is on the last rune of the buffer, or behind
-- it, or a newline follows.
at_end_of_line_iff :
    (i : ℕ) (m : ℤ) (l : Line)
    → i ≤ length l
    → (at_end_of_line (cursor_at i m l) ≡ true)
      ↔ ((length l ≤ suc i) ⊎ (get_elem? l (suc i) ≡ some b'\n'))
unfolding at_end_of_line
at_end_of_line_iff i m l h =
    rw (newlines-line_ends l, +ℤ-pos)
      (ground
        (arith, ends_at-line_ends 0 l (i + 1) (i + 1) (omega arith), -ℤ_parts (len l) (pos 1)))

down_loop-line :
    (c : Cursor) (ends : List (ℕ × ℕ)) (i : ℕ) (cpos begin : ℤ)
    → (down_loop c ends i cpos begin).line ≡ c.line
unfolding down_loop line_pos land
down_loop-line c [] i cpos begin = refl
down_loop-line c ((end, after) ∷ rest) i cpos begin = ground (
  arith,
  down_loop-line (check_append c) rest (i + 1) cpos (pos end),
  down_loop-line (check_append c) rest (i + 1) ((check_append c).pos -ℤ begin) (pos end),
  check_append-line c,
)

land-line : (c : Cursor) (cpos begin end : ℤ) → (land c cpos begin end).line ≡ c.line
unfolding land
land-line c cpos begin end = ground arith

-- The lines of the buffer in front of one of them have a beginning.
line_begin-some :
    (ends : List (ℕ × ℕ)) (i : ℕ) → i < length ends → (begin : ℤ) × (line_begin ends i ≡ some begin)
unfolding line_begin
line_begin-some ends zero h = (minus_one, refl)
line_begin-some ends (suc i) h =
    let ((end, after), e) = get_elem?_lt ends i (omega arith) in (pos end, rw e refl)

-- No index of the loop of `moveLineUp` is out of range.
up_loop-some :
    (ends : List (ℕ × ℕ)) (i : ℕ) (c : Cursor) (cpos : ℤ)
    → i ≤ length ends
    → (d : Cursor) × (up_loop c ends cpos i ≡ some d) × (d.line ≡ c.line)
unfolding up_loop line_pos
up_loop-some ends zero c cpos h = (c, refl, refl)
up_loop-some ends (suc i) c cpos h =
    let b = check_append c in
    let here = line_index (newlines b.line) (pos_part b.pos) 0 in
    let same = check_append-line c in
    let ((end, after), e) = get_elem?_lt ends i (omega arith) in
    let (begin, at) = line_begin-some ends i (omega arith) in
    let (low, goes, kept) = up_loop-some ends i b cpos (omega arith) in
    let (cur, turns, left) = up_loop-some ends i b (b.pos -ℤ begin) (omega arith) in
    elim (Bool-cases (ltb here i)) [
      | inl k ↦ (low, rw (up_loop, e, k) goes, kept ∙ same)
      | inr k ↦ elim (Bool-cases (i == here)) [
        | inl j ↦ (cur, rw (up_loop, e, k, at, j) turns, left ∙ same)
        | inr j ↦ (
          land b cpos begin (if ltb 0 i then pos end else pos end -ℤ pos 1),
          rw (up_loop, e, k, at, j) refl,
          land-line b cpos begin _ ∙ same,
        )
      ]
    ]

-- A step of the motion returns, and keeps the buffer.
abbrev Steps : (Cursor → Option Cursor) → Type 0
Steps one = (c : Cursor) → (d : Cursor) × (one c ≡ some d) × (d.line ≡ c.line)

move_line_up-Steps : Steps move_line_up
unfolding move_line_up
move_line_up-Steps c =
    up_loop-some (newlines c.line) (length (newlines c.line)) c (pos 0) (omega arith)

move_line_down-Steps : Steps (λ c. some (move_line_down c))
unfolding move_line_down
move_line_down-Steps c =
    (move_line_down c, refl, down_loop-line c (newlines c.line) 0 (pos 0) minus_one)

repeat_move_lem :
    (one : Cursor → Option Cursor)
    → Steps one
    → (n : ℕ) (c : Cursor) → (d : Cursor) × (repeat_move one n c ≡ some d) × (d.line ≡ c.line)
unfolding repeat_move
repeat_move_lem one keeps zero c = (c, refl, refl)
repeat_move_lem one keeps (suc n) c =
    let (b, moved, kept) = keeps c in
    let (c', step, same, v, done) = check_command_lem b in
    let (d, steps, same') = repeat_move_lem one keeps n c' in
    (d, rw (moved, step) steps, same' ∙ same ∙ kept)

line_move_of :
    (one : Cursor → Option Cursor)
    → Steps one
    → (n : ℕ) (c : Cursor)
    → (d : Cursor) × ((repeat_move one n (check_append c) >>= λ d. some (check_append d)) ≡ some d)
      × (d.line ≡ c.line)
      × IsValid d
line_move_of one keeps n c =
    let (d, steps, same) = repeat_move_lem one keeps n (check_append c) in
    (
      check_append d,
      rw steps refl,
      check_append-line d ∙ same ∙ check_append-line c,
      check_append-IsValid d,
    )

line_move_moves :
    (c : Cursor) (count : ℤ)
    → (d : Cursor) × ((if ltb_ℤ count (pos 0)
          then (repeat_move move_line_up (neg_part count) (check_append c) >>= λ d.
              some (check_append d))
          else (repeat_move (λ b. some (move_line_down b)) (pos_part count) (check_append c)
              >>= λ d. some (check_append d)))
        ≡ some d)
      × (d.line ≡ c.line)
      × IsValid d
line_move_moves c count = elim (Bool-cases (ltb_ℤ count (pos 0))) [
  | inl up ↦ rw up (line_move_of move_line_up move_line_up-Steps (neg_part count) c)
  | inr down ↦
      rw down (line_move_of (λ b. some (move_line_down b)) move_line_down-Steps (pos_part count) c)
]

-- `LineMove` never panics: from any cursor it goes to a valid one on the same buffer.
line_move_lem :
    (c : Cursor) (count : ℤ)
    → (d : Cursor) × (line_move c count ≡ some d) × (d.line ≡ c.line) × IsValid d
unfolding line_move
line_move_lem c count =
    elim (Bool-cases (length (newlines (check_append c).line) == 1 || eqb_ℤ count (pos 0))) [
      | inl still ↦ (
        check_append (check_append c),
        rw still refl,
        check_append-line (check_append c) ∙ check_append-line c,
        check_append-IsValid _,
      )
      | inr moves ↦ rw moves (line_move_moves c count)
    ]
