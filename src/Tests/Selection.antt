-- ===== src/Tests/Selection.antt =====
-- The theorems about the selection at concrete inputs, and runs of the model.
use readline.Core.Selection.Operations.{pop_selection, replace_selection}
use readline.Base.{◌+◌, ◌≡◌, refl, true, false, Option, some, [], ◌∷◌}
use readline.Base.Int.{ℤ, pos, minus_one}
use readline.Core.Line.{Line}
use readline.Core.Cursor.{Cursor}
use readline.Core.Selection.{new_selection, Selection, visual_kind, line_of, range, cut_selection}
use readline.Core.Selection.Range.{IsRange, range-IsRange}
use readline.Core.Selection.Cuts.{IsCut, cut_selection-IsCut}

abbrev cursor : Cursor
cursor = record { pos = pos 1; mark = minus_one; line = b'a' ∷ b'b' ∷ b'c' ∷ b'd' ∷ [] }

-- From the third rune back to the second one, with both.
abbrev backward : Selection
backward = record {
  kind = visual_kind;
  active = true;
  visual = true;
  visual_line = false;
  bpos = pos 2;
  epos = minus_one;
  surrounds = [];
  cursor = cursor;
}

range-IsRange_example :
    (line_of (range backward).0 ≡ line_of backward)
    × IsRange (line_of backward) (range backward).1 (range backward).2
range-IsRange_example = range-IsRange backward

cut_selection-IsCut_example :
    (r : Selection × Line) × (cut_selection backward ≡ some r)
    × IsCut (line_of backward) (range backward).1 (range backward).2 (line_of r.0) r.1
cut_selection-IsCut_example = cut_selection-IsCut backward refl

abbrev cut_backward : Option (Selection × Line)
cut_backward = cut_selection backward

-- A whole line of two is popped, and the cursor goes to the same column of the other one.
abbrev whole_line : Selection
whole_line =
    record (new_selection
      (record { pos = pos 1; mark = minus_one; line = 97 ∷ 98 ∷ 10 ∷ 99 ∷ 100 ∷ [] })) {
        active = true;
        visual = true;
        visual_line = true;
        bpos = pos 1;
      }

abbrev popped : Option (Selection × Line × ℤ × ℤ × ℤ)
popped = pop_selection whole_line

abbrev replaced : Option Selection
replaced = replace_selection backward (λ c. c + 1)
