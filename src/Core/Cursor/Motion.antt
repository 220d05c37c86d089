-- ===== src/Core/Cursor/Motion.antt =====
-- The motions within a line of the buffer, and the insertion at the cursor (internal/core/cursor.go).
use mathlib.Core.Path.{subst}
use readline.Base.{
  ℕ, ◌+◌, ◌≤◌, ◌<◌, ◌≡◌, ◌⊎◌, ◌↔◌, refl, inl, inr, true, false, [], ◌∷◌, ◌++◌, arith, length, take,
  drop, none, some, sym, ◌∙◌, ap, length-set, length-append, if◌then◌else◌, get_elem?_lt,
  get_elem?_ge, Option-cases, append_assoc,
}
use readline.Base.Int.{ℤ, pos, pos_part, minus_one, -ℤ_parts, +ℤ-pos, eqb_ℤ, ◌≤ℤ◌, ◌<ℤ◌, ◌+ℤ◌, ◌-ℤ◌}
use readline.Core.Line.{Line, len, insert}
use readline.Core.Line.Edits.{NoNullEnd, insert_lem, length-insert, insert-length_ge}
use readline.Core.Search.{find}
use readline.Core.Search.Find.{Absent, LastIn, find_before}
use readline.Core.Search.Hits.{start_of-pos}
use readline.Core.Cursor.{
  Cursor, check_append, index, on_empty_line, check_command, beginning_of_line, end_of_line,
  replace_with, insert_at,
}
use readline.Core.Cursor.Checks.{IsValid, check_append-IsValid, check_append_id}
use readline.Core.Cursor.Command.{InCommand, check_command_lem, cursor_at}

index-eq-none : (l : Line) (at : ℤ) → (index l at ≡ none) ↔ ((at <ℤ pos 0) ⊎ (len l ≤ℤ at))
unfolding index
index-eq-none l at = ground (arith, get_elem?_lt l (pos_part at), get_elem?_ge l (pos_part at))

pub index-some : (l : Line) (at : ℤ) → pos 0 ≤ℤ at → at <ℤ len l → (r : ℕ) × (index l at ≡ some r)
unfolding index
index-some l at h k = ground (arith, get_elem?_lt l (pos_part at))

-- `OnEmptyLine` panics exactly if the line is not empty and the position is out of it.
pub on_empty_line-eq-none :
    (c : Cursor)
    → (on_empty_line c ≡ none) ↔ ((0 < length c.line) × ((c.pos <ℤ pos 0) ⊎ (len c.line <ℤ c.pos)))
unfolding on_empty_line
on_empty_line-eq-none c = ground (
  arith,
  index-eq-none c.line c.pos,
  index-eq-none c.line (c.pos -ℤ pos 1),
  -ℤ_parts c.pos (pos 1),
)

insert_at-eq :
    (i : ℕ) (m : ℤ) (l r : Line)
    → IsValid (cursor_at i m l)
    → insert_at (cursor_at i m l) r
      ≡ record { pos = pos (i + length r); mark = m; line = insert l (pos i) r }
unfolding insert_at
insert_at-eq i m l r v = rw (check_append_id (cursor_at i m l) v, +ℤ-pos) refl

-- What is inserted at a valid cursor stands between what was before and after it, and the cursor ends
-- behind it.
pub insert_at_lem :
    (i : ℕ) (m : ℤ) (l r : Line)
    → IsValid (cursor_at i m l)
    → NoNullEnd r
    → (insert_at (cursor_at i m l) r
        ≡ record { pos = pos (i + length r); mark = m; line = take i l ++ (r ++ drop i l) })
      × IsValid (insert_at (cursor_at i m l) r)
insert_at_lem i m l r v n = (result, rw result (ground (arith, sized)))
  where
    h : i ≤ length l
    h = omega (arith, v.pos_to)

    result :
        insert_at (cursor_at i m l) r
        ≡ record { pos = pos (i + length r); mark = m; line = take i l ++ (r ++ drop i l) }
    result = insert_at-eq i m l r v ∙ λ j. record {
      pos = pos (i + length r);
      mark = m;
      line = insert_lem l r i h n j;
    }

    sized : length (take i l ++ (r ++ drop i l)) ≡ length l + length r
    sized = rw (← insert_lem l r i h n) (length-insert l r i h n)

replace_with-IsValid : (c : Cursor) (r : ℕ) → IsValid (replace_with c r)
unfolding replace_with
replace_with-IsValid c r = ground (
  arith,
  check_append-IsValid c,
  insert-length_ge (check_append c).line (r ∷ []) (len (check_append c).line),
  length-set (check_append c).line (pos_part (check_append c).pos) r,
)

-- `EndOfLine` panics exactly if the line is not empty and the position is out of it; otherwise the
-- cursor ends valid, on a rune that is no newline or on an empty line.
end_of_line_lem :
    (c : Cursor)
    → ((end_of_line c ≡ none) × (0 < length c.line) × ((c.pos <ℤ pos 0) ⊎ (len c.line <ℤ c.pos)))
      ⊎ ((d : Cursor) × (end_of_line c ≡ some d) × (d.line ≡ c.line) × IsValid d × InCommand d)
unfolding end_of_line
end_of_line_lem c = elim (Option-cases (on_empty_line c)) [
  | inl panics ↦ inl (
    rw panics refl,
    ((on_empty_line-eq-none c).0 panics).0,
    ((on_empty_line-eq-none c).0 panics).1,
  )
  | inr (true, e) ↦ inr (rw e (check_command_lem c))
  | inr (false, e) ↦ inr (rw e (check_command_lem _))
]

newline_target : (n : ℕ) → (if eqb_ℤ (pos n) minus_one then pos 0 else pos n +ℤ pos 1) ≡ pos (n + 1)
unfolding ◌+ℤ◌
newline_target n = ground arith

beginning_of_line-newline :
    (i n : ℕ) (m : ℤ) (l : Line)
    → find l b'\n' (pos i) false ≡ pos n
    → beginning_of_line (cursor_at i m l) ≡ check_command (cursor_at (n + 1) m l)
unfolding beginning_of_line
beginning_of_line-newline i n m l e =
    rw e (ap (λ p. check_command (record { pos = p; mark = m; line = l })) (newline_target n))

beginning_of_line-first :
    (i : ℕ) (m : ℤ) (l : Line)
    → find l b'\n' (pos i) false ≡ minus_one
    → beginning_of_line (cursor_at i m l) ≡ check_command (cursor_at 0 m l)
unfolding beginning_of_line
beginning_of_line-first i m l e = rw e refl

-- Index `s` begins the line of the buffer that index `i` is on: no newline stands between the two,
-- and `s` is the start of the buffer, or behind a newline.
pub record BeginsLine (l : Line) (i s : ℕ) : Type 0 where
  pub front : Line
  pub mid : Line
  pub splits : take i l ≡ front ++ mid
  pub one_line : Absent b'\n' mid
  pub at_front : s ≡ length front
  pub bound : (front ≡ []) ⊎ ((rest : Line) × (front ≡ rest ++ b'\n' ∷ []))

-- `BeginningOfLine` goes to the start of the cursor's line of the buffer, and from there where
-- `CheckCommand` leads.
beginning_of_line_lem :
    (i : ℕ) (m : ℤ) (l : Line)
    → i ≤ length l
    → (s : ℕ) × BeginsLine l i s
      × (beginning_of_line (cursor_at i m l) ≡ check_command (cursor_at s m l))
beginning_of_line_lem i m l h = found (find l b'\n' (pos i) false) refl (
    subst (λ k. LastIn (take k l) b'\n' (find l b'\n' (pos i) false)) (start_of-pos l i h)
      (find_before l b'\n' (pos i)))
  where
    found :
        (r : ℤ)
        → find l b'\n' (pos i) false ≡ r
        → LastIn (take i l) b'\n' r
        → (s : ℕ) × BeginsLine l i s
          × (beginning_of_line (cursor_at i m l) ≡ check_command (cursor_at s m l))
    found r e (inl (front, mid, split, absent, at)) = (
      length front + 1,
      record {
        front = front ++ b'\n' ∷ [];
        mid = mid;
        splits = split ∙ sym (append_assoc front (b'\n' ∷ []) mid);
        one_line = absent;
        at_front = omega (arith, length-append {0} front (b'\n' ∷ []));
        bound = inr (front, refl);
      },
      beginning_of_line-newline i (length front) m l (e ∙ at),
    )
    found r e (inr (absent, at)) = (
      0,
      record {
        front = [];
        mid = take i l;
        splits = refl;
        one_line = absent;
        at_front = refl;
        bound = inl refl;
      },
      beginning_of_line-first i m l (e ∙ at),
    )
