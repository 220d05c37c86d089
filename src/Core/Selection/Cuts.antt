-- ===== src/Core/Selection/Cuts.antt =====
-- What `Cut` takes out of the line (internal/core/selection.go).
use readline.Base.{
  ℕ, zero, suc, ◌-◌, ◌≤◌, ◌≡◌, refl, ap, ◌∙◌, Bool, true, false, some, [], ◌∷◌, ◌++◌, length, take,
  drop, take-append-drop, is_empty, arith, Bool-cases, inl, inr,
}
use readline.Base.Int.{ℤ, pos, pos_part, minus_one, eqb_ℤ}
use readline.Core.Line.{Line, cut}
use readline.Core.Cursor.{Cursor, get_pos, check_append}
use readline.Core.Cursor.Checks.{check_append_id, check_append-IsValid}
use readline.Core.Line.Edits.{cut_range}
use readline.Core.Selection.{
  Selection, line_of, with_line, ordered, check_selection_range, spanned, select_to_cursor,
  with_final, range_of, range, slice_of, selected, reset, new_selection, cut_selected,
  cut_selection,
}
use readline.Core.Selection.Range.{
  pending, both, IsRange, no_range, in_line, IsChecked, refused, accepted,
  check_selection_range-IsChecked, range-IsRange,
}

pending_again :
    (l : Line) (b : ℕ)
    → is_empty l ≡ false
    → b ≤ length l
    → check_selection_range l (pos b) minus_one ≡ (pos b, minus_one, true)
unfolding check_selection_range ordered
pending_again l b n le = ground arith

pub both_again :
    (l : Line) (b e : ℕ)
    → is_empty l ≡ false
    → b ≤ e
    → e ≤ length l
    → check_selection_range l (pos b) (pos e) ≡ (pos b, pos e, true)
unfolding check_selection_range ordered
both_again l b e n le end = ground arith

check_append-twice : (c : Cursor) → check_append (check_append c) ≡ check_append c
check_append-twice c = check_append_id (check_append c) (check_append-IsValid c)

pub range-active :
    (s : Selection)
    → is_empty (line_of s) ≡ false
    → s.active ≡ true
    → range s ≡ range_of s (check_selection_range (line_of s) s.bpos s.epos)
unfolding range
range-active s n a = rw (n, a) refl

select_again :
    (s : Selection) (b : ℤ)
    → select_to_cursor (record s { cursor = check_append s.cursor }) b ≡ select_to_cursor s b
unfolding select_to_cursor get_pos
select_again s b =
    let answer : Cursor → Selection × ℤ × ℤ = λ c.
      let (low, high) = spanned c.line s.visual_line (pos_part b) (pos_part c.pos) in
      (record s { cursor = c }, pos low, pos high) in
    ap answer (check_append-twice s.cursor)

-- A second call of `Pos` gives the answer of the first one, and changes nothing more.
range_of-twice :
    (s : Selection) (x : ℤ × ℤ × Bool)
    → is_empty (line_of s) ≡ false
    → s.active ≡ true
    → check_selection_range (line_of s) s.bpos s.epos ≡ x
    → IsChecked (line_of s) x
    → range (range_of s x).0 ≡ range_of s x
unfolding range_of line_of with_final select_to_cursor check_append range get_pos
range_of-twice s x n a e refused = range-active s n a ∙ rw e refl
range_of-twice s x n a e (accepted b e' (pending m le)) =
    let first = record s { bpos = pos m; epos = minus_one } in
    let later = record first { cursor = check_append s.cursor } in
    range-active later n a
    ∙ rw (pending_again s.cursor.line m n le) (ap with_final (select_again first (pos m)))
range_of-twice s x n a e (accepted b e' (both m k le end)) =
    let first = record s { bpos = pos m; epos = pos k } in
    let is_set : eqb_ℤ (pos k) minus_one ≡ false = ground arith in
    rw is_set (range-active first n a ∙ rw (both_again s.cursor.line m k n le end, is_set) refl)

range-range : (s : Selection) → is_empty (line_of s) ≡ false → range (range s).0 ≡ range s
unfolding range
range-range s n = elim (Bool-cases s.active) [
  | inl a ↦
      let r = range-active s n a in
      let x = check_selection_range (line_of s) s.bpos s.epos in
      rw r (range_of-twice s x n a refl (check_selection_range-IsChecked (line_of s) s.bpos s.epos))
  | inr a ↦ let r : range s ≡ (s, minus_one, minus_one) = rw (range, n, a) refl in rw r r
]

-- A line is what is in front of a range, the range and what is behind it.
pub split_range :
    (l : Line) (b e : ℕ)
    → b ≤ e
    → e ≤ length l
    → l ≡ take b l ++ (take (e - b) (drop b l) ++ drop e l)
split_range l zero e le end =
    let all : e - 0 ≡ e = omega arith in rw (all, take-append-drop e l) refl
split_range [] (suc b) e le end = absurd (omega arith)
split_range (x ∷ l) (suc b) zero le end = absurd (omega arith)
split_range (x ∷ l) (suc b) (suc e) le end =
    let fewer : suc e - suc b ≡ e - b = omega arith in
    rw fewer (ap (λ (r : Line). x ∷ r) (split_range l b e (omega arith) (omega arith)))

-- What a cut of a range of the line leaves, and the text that it takes; nothing is taken without one.
pub data IsCut (l : Line) : ℤ → ℤ → Line → Line → Type 0 where
  nothing : IsCut l minus_one minus_one l []
  cut_out :
      (b e : ℕ)
      → b ≤ e
      → e ≤ length l
      → IsCut l (pos b) (pos e) (take b l ++ drop e l) (take (e - b) (drop b l))

pos-set : (i : ℕ) → eqb_ℤ (pos i) minus_one ≡ false
pos-set i = ground arith

slice_of-in :
    (l : Line) (i j : ℕ)
    → i ≤ j
    → j ≤ length l
    → slice_of l (pos i) (pos j) ≡ some (take (j - i) (drop i l))
unfolding slice_of
slice_of-in l i j le end = ground arith

pub selected-in :
    (s : Selection) (i j : ℕ)
    → range s ≡ (s, pos i, pos j)
    → is_empty (line_of s) ≡ false
    → i ≤ j
    → j ≤ length (line_of s)
    → selected s ≡ some (s, take (j - i) (drop i (line_of s)))
unfolding selected
selected-in s i j r n le end =
    rw (n, r, pos-set i, pos-set j, slice_of-in (line_of s) i j le end) refl

pub cut_selected-in :
    (s s' : Selection) (i j : ℕ) (text rest : Line)
    → range s ≡ (s', pos i, pos j)
    → selected s' ≡ some (s', text)
    → cut (line_of s') (pos i) (pos j) ≡ some rest
    → cut_selected s ≡ some (reset (with_line s' rest), text)
unfolding cut_selected
cut_selected-in s s' i j text rest r t gone = rw (r, pos-set i, pos-set j, t, gone) refl

reset-line : (s : Selection) (l : Line) → line_of (reset (with_line s l)) ≡ l
unfolding reset new_selection line_of with_line
reset-line s l = refl

reset_same_line : (s : Selection) → line_of (reset s) ≡ line_of s
unfolding reset new_selection line_of
reset_same_line s = refl

cut_selected-none :
    (s s' : Selection) → range s ≡ (s', minus_one, minus_one) → cut_selected s ≡ some (reset s', [])
unfolding cut_selected
cut_selected-none s s' r = rw r refl

IsCut-of :
    (l l' rest rest' text : Line) (b e : ℤ)
    → l ≡ l'
    → rest' ≡ rest
    → IsCut l b e rest text
    → IsCut l' b e rest' text
IsCut-of l l' rest rest' text b e same left c = rw (← same, left) c

cut_selected-IsCut :
    (s s' : Selection) (b e : ℤ)
    → range s ≡ (s', b, e)
    → range s' ≡ (s', b, e)
    → is_empty (line_of s') ≡ false
    → IsRange (line_of s') b e
    → (r : Selection × Line) × (cut_selected s ≡ some r) × IsCut (line_of s') b e (line_of r.0) r.1
cut_selected-IsCut s s' b e first second n no_range = (
  (reset s', []),
  cut_selected-none s s' first,
  IsCut-of _ _ (line_of s') _ [] _ _ refl (reset_same_line s') nothing,
)
cut_selected-IsCut s s' b e first second n (in_line i j le end) =
    let l = line_of s' in
    let text = take (j - i) (drop i l) in
    let rest = take i l ++ drop j l in
    (
      (reset (with_line s' rest), text),
      cut_selected-in s s' i j text rest first (selected-in s' i j second n le end)
          (cut_range l i j le end).0,
      IsCut-of l l rest _ text _ _ refl (reset-line s' rest) (cut_out i j le end),
    )

pub cut_selection-cut_selected :
    (s : Selection)
    → is_empty (line_of s) ≡ false
    → s.surrounds ≡ []
    → cut_selection s ≡ cut_selected s
unfolding cut_selection
cut_selection-cut_selected s n empty = rw (n, empty) refl

-- `Cut` of a selection without surround selections always returns. It takes just the range that `Pos`
-- gives out of the line, and returns its text; where `Pos` gives no range, the line stays, and the text
-- is empty.
pub cut_selection-IsCut :
    (s : Selection)
    → s.surrounds ≡ []
    → (r : Selection × Line) × (cut_selection s ≡ some r)
      × IsCut (line_of s) (range s).1 (range s).2 (line_of r.0) r.1
unfolding cut_selection range
cut_selection-IsCut s empty = elim (Bool-cases (is_empty (line_of s))) [
  | inl n ↦
      let none : range s ≡ (s, minus_one, minus_one) = rw (range, n) refl in
      ((s, []), rw n refl, rw none nothing)
  | inr n ↦
      let (line, in_range) = range-IsRange s in
      let (r, e, left) =
        cut_selected-IsCut s (range s).0 (range s).1 (range s).2 refl (range-range s n) (rw line n)
          (rw line in_range) in
      (
        r,
        cut_selection-cut_selected s n empty ∙ e,
        IsCut-of (line_of (range s).0) (line_of s) (line_of r.0) _ r.1 _ _ line refl left,
      )
]
