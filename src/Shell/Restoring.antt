-- ===== src/Shell/Restoring.antt =====
-- What is killed comes back (emacs.go): `killLine`, and `yank` behind it.
pub mod KillLine
use readline.Base.{
  ℕ, zero, suc, ◌+◌, ◌-◌, ◌≤◌, ◌<◌, ◌≡◌, ◌≢◌, refl, sym, ap, ◌∙◌, Bool, true, false, not, Option,
  none, some, List, [], ◌∷◌, ◌++◌, length, take, drop, get_or, get_elem?, is_empty, arith,
  length-append, length-take, length-drop, take-append, drop-append, Option-cases, inl, inr, ◌⊎◌,
}
use readline.Base.Int.{ℤ, pos, minus_one, eqb_ℤ, ltb_ℤ, ◌-ℤ◌}
use readline.Core.Line.{Line, len, insert, cut}
use readline.Core.Line.Edits.{NoNullEnd, insert_lem, cut_range}
use readline.Core.Cursor.{Cursor, check_append, on_empty_line, index, end_of_line_append}
use readline.Core.Cursor.Checks.{IsValid, check_append_id}
use readline.Core.Cursor.Command.{cursor_at}
use readline.Core.Search.{find}
use readline.Core.Search.Find.{start_of}
use readline.Core.Search.Hits.{HitAfter, find-HitAfter}
use readline.Core.Selection.{
  Selection, visual_kind, new_selection, line_of, with_line, check_selection_range, range_of,
  with_final, final_range, range, mark_range, reset, cut_selected, cut_selection,
}
use readline.Core.Selection.Cuts.{
  split_range, cut_selected-in, selected-in, both_again, range-active, cut_selection-cut_selected,
}

-- No rune of the text is null.
abbrev pub NoNull : Line → Type 0
NoNull [] = Unit
NoNull (r ∷ rest) = (r ≢ 0) × NoNull rest

NoNull-take : (n : ℕ) (l : Line) → NoNull l → NoNull (take n l)
NoNull-take zero l h = tt
NoNull-take (suc n) [] h = tt
NoNull-take (suc n) (r ∷ rest) h = (h.0, NoNull-take n rest h.1)

NoNull-drop : (n : ℕ) (l : Line) → NoNull l → NoNull (drop n l)
NoNull-drop zero l h = h
NoNull-drop (suc n) [] h = tt
NoNull-drop (suc n) (r ∷ rest) h = NoNull-drop n rest h.1

NoNull-at : (l : Line) (i : ℕ) → i < length l → NoNull l → get_or l i 1 ≢ 0
NoNull-at [] i h k e = absurd (omega arith)
NoNull-at (r ∷ rest) zero h k e = k.0 e
NoNull-at (r ∷ rest) (suc i) h k e = NoNull-at rest i (omega arith) k.1 e

-- The text between two positions.
abbrev pub between : Line → ℕ → ℕ → Line
between l i j = take (j - i) (drop i l)

-- Inserting at its start what was between two positions gives the line back.
insert-between :
    (l : Line) (i j : ℕ)
    → i ≤ j
    → j ≤ length l
    → NoNull l
    → insert (take i l ++ drop j l) (pos i) (between l i j) ≡ l
insert-between l i j h k n =
    insert_lem (take i l ++ drop j l) (between l i j) i fits (λ e at.
      NoNull-at (between l i j) e (omega arith)
        (NoNull-take (j - i) (drop i l) (NoNull-drop i l n)))
    ∙ rw
        (
          take-append i (take i l) (drop j l) (sym front),
          drop-append i (take i l) (drop j l) (sym front),
        )
        (sym (split_range l i j h k))
  where
    front : length (take i l) ≡ i
    front = omega (arith, length-take {0} i l)

    fits : i ≤ length (take i l ++ drop j l)
    fits = omega (arith, front, length-append {0} (take i l) (drop j l))

module _ (s : Selection) (i j : ℕ) (h : i ≤ j) (k : j ≤ length (line_of s))
    (full : is_empty (line_of s) ≡ false) where
  abbrev pub marked : Selection
  marked = record s { kind = visual_kind; active = true; bpos = pos i; epos = pos j }

  pub mark_range-marked : mark_range s (pos i) (pos j) ≡ marked
  unfolding mark_range
  mark_range-marked = rw (both_again (line_of s) i j full h k) refl

  range-marked : s.visual ≡ false → range marked ≡ (marked, pos i, pos j)
  unfolding range_of with_final final_range line_of
  range-marked v =
      range-active marked full refl
      ∙ rw (both_again s.cursor.line i j full h k, both_set)
          (rw (v, both_again s.cursor.line i j full h k) refl)
    where
      both_set : eqb_ℤ (pos j) minus_one ≡ false
      both_set = ground arith

  -- A range that is marked is cut out.
  pub cut-marked :
      s.visual ≡ false
      → s.surrounds ≡ []
      → (r : Selection) × (cut_selection (mark_range s (pos i) (pos j))
          ≡ some (r, between (line_of s) i j))
        × (r.cursor ≡ record s.cursor { line = take i (line_of s) ++ drop j (line_of s) })
  unfolding reset new_selection with_line line_of
  cut-marked v n =
      let at = range-marked v in
      let l = s.cursor.line in
      (
        reset (with_line marked (take i l ++ drop j l)),
        rw mark_range-marked (
            cut_selection-cut_selected marked full n
            ∙ cut_selected-in marked marked i j _ _ at (selected-in marked i j at full h k)
                (cut_range l i j h k).0),
        refl,
      )
