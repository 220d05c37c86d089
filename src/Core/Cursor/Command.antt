-- ===== src/Core/Cursor/Command.antt =====
-- `OnEmptyLine` and `CheckCommand` of internal/core/cursor.go.
use readline.Base.{
  ℕ, zero, suc, ◌≤◌, ◌<◌, ◌≡◌, ◌≢◌, ◌⊎◌, ◌&&◌, refl, inl, inr, true, [], ◌∷◌, arith, length,
  get_elem?, get_elem?_lt, some, ◌∙◌, ◌==◌, Bool-cases, dec_lt, ℕ_discrete, if◌then◌else◌,
}
use readline.Base.Int.{ℤ, pos, negsuc, ◌-ℤ◌}
use readline.Core.Line.{Line}
use readline.Core.Cursor.{
  Cursor, check_append, char, dec, index, check_command, on_empty_line, leave_end, leave_newline,
}
use readline.Core.Cursor.Checks.{IsValid, check_append-IsValid, check_append_id, check_append-line}

abbrev pub cursor_at : ℕ → ℤ → Line → Cursor
cursor_at i m l = record { pos = pos i; mark = m; line = l }

-- Where `CheckCommand` leaves the cursor: on a rune that is no newline, or on an empty line.
abbrev pub InCommand : Cursor → Type 0
InCommand c =
    ((i : ℕ) × (r : ℕ) × (c.pos ≡ pos i) × (get_elem? c.line i ≡ some r) × (r ≢ b'\n'))
    ⊎ (on_empty_line c ≡ some true)

on_empty_line-zero :
    (m : ℤ) (x : ℕ) (xs : Line) → on_empty_line (cursor_at 0 m (x ∷ xs)) ≡ some (x == b'\n')
unfolding on_empty_line index ◌-ℤ◌
on_empty_line-zero m x xs = ground arith

on_empty_line_end :
    (n r : ℕ) (m : ℤ) (l : Line)
    → suc n ≡ length l
    → get_elem? l n ≡ some r
    → on_empty_line (cursor_at (suc n) m l) ≡ some (r == b'\n')
unfolding on_empty_line index ◌-ℤ◌
on_empty_line_end n r m l h e = ground arith

on_empty_line_mid :
    (n u r : ℕ) (m : ℤ) (l : Line)
    → suc n < length l
    → get_elem? l (suc n) ≡ some u
    → get_elem? l n ≡ some r
    → on_empty_line (cursor_at (suc n) m l) ≡ some ((u == b'\n') && (r == b'\n'))
unfolding on_empty_line index ◌-ℤ◌
on_empty_line_mid n u r m l h d e = ground arith

pub char_lem :
    (i r : ℕ) (m : ℤ) (l : Line)
    → IsValid (cursor_at i m l)
    → get_elem? l i ≡ some r
    → char (cursor_at i m l) ≡ (cursor_at i m l, r)
unfolding char
char_lem i r m l v e = ground arith

module _ (m : ℤ) (l : Line) where
  leave_end-inside : (i : ℕ) → i < length l → leave_end (cursor_at i m l) ≡ some (cursor_at i m l)
  unfolding leave_end
  leave_end-inside i h = ground arith

  leave_end_end :
      (n r : ℕ)
      → suc n ≡ length l
      → get_elem? l n ≡ some r
      → leave_end (cursor_at (suc n) m l)
        ≡ some (if r == b'\n' then cursor_at (suc n) m l else cursor_at n m l)
  unfolding leave_end ◌-ℤ◌
  leave_end_end n r h e = ground (arith, on_empty_line_end n r m l h e)

  leave_newline_end :
      (i : ℕ) → i ≡ length l → leave_newline (cursor_at i m l) ≡ some (cursor_at i m l)
  unfolding leave_newline
  leave_newline_end i h = ground arith

  leave_newline_rune :
      (i r : ℕ)
      → IsValid (cursor_at i m l)
      → get_elem? l i ≡ some r
      → i < length l
      → r ≢ b'\n'
      → leave_newline (cursor_at i m l) ≡ some (cursor_at i m l)
  unfolding leave_newline
  leave_newline_rune i r v e h n = rw (char_lem i r m l v e) (ground arith)

  leave_newline-newline :
      (n r : ℕ)
      → IsValid (cursor_at (suc n) m l)
      → get_elem? l (suc n) ≡ some b'\n'
      → get_elem? l n ≡ some r
      → suc n < length l
      → leave_newline (cursor_at (suc n) m l)
        ≡ some (if r == b'\n' then cursor_at (suc n) m l else cursor_at n m l)
  unfolding leave_newline dec ◌-ℤ◌
  leave_newline-newline n r v u e h =
      rw (char_lem (suc n) b'\n' m l v u) (ground (arith, on_empty_line_mid n b'\n' r m l h u e))

leave_newline-zero :
    (m : ℤ) (x : ℕ) (xs : Line)
    → IsValid (cursor_at 0 m (x ∷ xs))
    → x ≡ b'\n'
    → leave_newline (cursor_at 0 m (x ∷ xs)) ≡ some (cursor_at 0 m (x ∷ xs))
unfolding leave_newline
leave_newline-zero m x xs v e =
    rw (char_lem 0 x m (x ∷ xs) v refl) (ground (arith, on_empty_line-zero m x xs))

-- Where the first step of `CheckCommand` leads: onto a rune, or to the end of an empty line.
abbrev LeftEnd : ℕ → ℤ → Line → Type 0
LeftEnd i m l =
    (j : ℕ) × (leave_end (cursor_at i m l) ≡ some (cursor_at j m l))
    × ((j < length l) ⊎ ((j ≡ length l) × (on_empty_line (cursor_at j m l) ≡ some true)))

leave_end-LeftEnd_end :
    (n r : ℕ) (m : ℤ) (l : Line) → suc n ≡ length l → get_elem? l n ≡ some r → LeftEnd (suc n) m l
leave_end-LeftEnd_end n r m l h e = elim (Bool-cases (r == b'\n')) [
  | inl newline ↦ (
    suc n,
    rw newline at (leave_end_end m l n r h e),
    inr (h, rw newline at (on_empty_line_end n r m l h e)),
  )
  | inr other ↦ (n, rw other at (leave_end_end m l n r h e), inl (omega arith))
]

leave_end-LeftEnd : (i : ℕ) (m : ℤ) (l : Line) → i ≤ length l → LeftEnd i m l
unfolding leave_end on_empty_line
leave_end-LeftEnd zero m [] h = (0, refl, inr (refl, refl))
leave_end-LeftEnd (suc n) m [] h = absurd (omega arith)
leave_end-LeftEnd zero m (x ∷ xs) h = (0, leave_end-inside m _ 0 (omega arith), inl (omega arith))
leave_end-LeftEnd (suc n) m (x ∷ xs) h = elim (dec_lt (suc n) (length (x ∷ xs))) [
  | yes p ↦ (suc n, leave_end-inside m (x ∷ xs) (suc n) p, inl p)
  | no p ↦
      let (r, e) = get_elem?_lt (x ∷ xs) n (omega arith) in
      leave_end-LeftEnd_end n r m (x ∷ xs) (omega arith) e
]

-- Where the second step leads.
abbrev LeftNewline : ℕ → ℤ → Line → Type 0
LeftNewline i m l =
    (j : ℕ) × (leave_newline (cursor_at i m l) ≡ some (cursor_at j m l))
    × (j ≤ i)
    × InCommand (cursor_at j m l)

leave_newline-LeftNewline_back :
    (n r : ℕ) (m : ℤ) (l : Line)
    → IsValid (cursor_at (suc n) m l)
    → get_elem? l (suc n) ≡ some b'\n'
    → get_elem? l n ≡ some r
    → suc n < length l
    → LeftNewline (suc n) m l
leave_newline-LeftNewline_back n r m l v u e h = elim (Bool-cases (r == b'\n')) [
  | inl newline ↦ (
    suc n,
    rw newline at (leave_newline-newline m l n r v u e h),
    omega arith,
    inr (rw newline at (on_empty_line_mid n b'\n' r m l h u e)),
  )
  | inr other ↦ (
    n,
    rw other at (leave_newline-newline m l n r v u e h),
    omega arith,
    inl (n, r, refl, e, λ same. ground (arith, same)),
  )
]

leave_newline-LeftNewline_on :
    (i : ℕ) (m : ℤ) (l : Line)
    → IsValid (cursor_at i m l)
    → i < length l
    → get_elem? l i ≡ some b'\n'
    → LeftNewline i m l
leave_newline-LeftNewline_on i m [] v h e = elim h [ ]
leave_newline-LeftNewline_on zero m (x ∷ xs) v h e = (
  0,
  leave_newline-zero m x xs v cc,
  omega arith,
  inr (ground (arith, on_empty_line-zero m x xs)),
)
leave_newline-LeftNewline_on (suc n) m (x ∷ xs) v h e =
    let (r, k) = get_elem?_lt (x ∷ xs) n (omega arith) in
    leave_newline-LeftNewline_back n r m (x ∷ xs) v e k h

leave_newline-LeftNewline :
    (i : ℕ) (m : ℤ) (l : Line)
    → IsValid (cursor_at i m l)
    → (i < length l) ⊎ ((i ≡ length l) × (on_empty_line (cursor_at i m l) ≡ some true))
    → LeftNewline i m l
leave_newline-LeftNewline i m l v (inr (e, empty)) =
    (i, leave_newline_end m l i e, omega arith, inr empty)
leave_newline-LeftNewline i m l v (inl h) =
    let (r, e) = get_elem?_lt l i h in
    elim (ℕ_discrete r b'\n') [
      | yes same ↦ leave_newline-LeftNewline_on i m l v h (rw same at e)
      | no other ↦
          (i, leave_newline_rune m l i r v e h other, omega arith, inl (i, r, refl, e, other))
    ]

-- The mark of a valid cursor stays valid at any other position in the line.
cursor_at-IsValid :
    (i j : ℕ) (m : ℤ) (l : Line)
    → IsValid (cursor_at i m l)
    → j ≤ length l
    → IsValid (cursor_at j m l)
cursor_at-IsValid i j m l v h = ground arith

check_command_at :
    (i : ℕ) (m : ℤ) (l : Line)
    → IsValid (cursor_at i m l)
    → (j : ℕ) × (check_command (cursor_at i m l) ≡ some (cursor_at j m l))
      × IsValid (cursor_at j m l)
      × InCommand (cursor_at j m l)
unfolding check_command
check_command_at i m l v =
    let (j, first, place) = leave_end-LeftEnd i m l (omega (arith, v.pos_to)) in
    let w = cursor_at-IsValid i j m l v (omega (arith, place)) in
    let (k, second, le, done) = leave_newline-LeftNewline j m l w place in
    (
      k,
      rw (check_append_id (cursor_at i m l) v, first) second,
      cursor_at-IsValid j k m l w (omega (arith, place)),
      done,
    )

check_command_of :
    (c : Cursor) (p : ℤ)
    → c.pos ≡ p
    → IsValid c
    → (d : Cursor) × (check_command c ≡ some d)
      × (d.line ≡ c.line)
      × (d.mark ≡ c.mark)
      × IsValid d
      × InCommand d
check_command_of c (pos i) e v =
    let at : cursor_at i c.mark c.line ≡ c = cc in
    let (j, step, w, done) = check_command_at i c.mark c.line (rw at v) in
    (cursor_at j c.mark c.line, rw at at step, refl, refl, w, done)
check_command_of c (negsuc n) e v = absurd (ground arith)

check_command-check_append : (c : Cursor) → check_command c ≡ check_command (check_append c)
unfolding check_command
check_command-check_append c = rw (check_append_id (check_append c) (check_append-IsValid c)) refl

-- `CheckCommand` never panics: from any cursor it goes to a valid one on the same line, which is on a
-- rune that is no newline, or on an empty line.
pub check_command_lem :
    (c : Cursor)
    → (d : Cursor) × (check_command c ≡ some d) × (d.line ≡ c.line) × IsValid d × InCommand d
check_command_lem c =
    let (d, step, same, mark, v, done) =
      check_command_of (check_append c) (check_append c).pos refl (check_append-IsValid c) in
    (d, check_command-check_append c ∙ step, same ∙ check_append-line c, v, done)
