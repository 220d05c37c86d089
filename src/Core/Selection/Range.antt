-- ===== src/Core/Selection/Range.antt =====
-- The range that `Pos` gives (internal/core/selection.go).
use readline.Base.{
  ℕ, suc, ◌≤◌, ◌≡◌, refl, Bool, true, false, not, ◌&&◌, ◌||◌, ◌⊎◌, ltb, if◌then◌else◌, length,
  is_empty, arith, Bool-cases, inl, inr,
}
use readline.Base.Int.{ℤ, pos, negsuc, pos_part, minus_one, ltb_ℤ, eqb_ℤ, ◌≤ℤ◌, +ℤ-one}
use readline.Core.Line.{Line, len}
use readline.Core.Cursor.{get_pos, check_append}
use readline.Core.Selection.{
  Selection, line_of, ordered, check_selection_range, spanned, select_to_cursor, final_range,
  with_final, range_of, range,
}

-- A position in the line, and one behind it that may still be pending.
pub data IsPending (l : Line) : ℤ → ℤ → Type 0 where
  pending : (b : ℕ) → b ≤ length l → IsPending l (pos b) minus_one
  both : (b e : ℕ) → b ≤ e → e ≤ length l → IsPending l (pos b) (pos e)

-- A range of the line, or none.
pub data IsRange (l : Line) : ℤ → ℤ → Type 0 where
  no_range : IsRange l minus_one minus_one
  in_line : (b e : ℕ) → b ≤ e → e ≤ length l → IsRange l (pos b) (pos e)

IsPending-of : (l : Line) (x y : ℤ × ℤ) → x ≡ y → IsPending l y.0 y.1 → IsPending l x.0 x.1
IsPending-of l x y e i = rw e i

ordered-IsPending :
    (l : Line) (b e : ℤ)
    → b ≤ℤ len l
    → e ≤ℤ len l
    → (ltb_ℤ b (pos 0) && ltb_ℤ e (pos 0)) ≡ false
    → IsPending l (ordered b e).0 (ordered b e).1
unfolding ordered
ordered-IsPending l (pos b) (pos e) p q n = elim (Bool-cases (ltb e b)) [
  | inl k ↦
      let r : ordered (pos b) (pos e) ≡ (pos e, pos b) = ground arith in
      IsPending-of l _ (pos e, pos b) r (both e b (ground arith) (omega arith))
  | inr k ↦
      let r : ordered (pos b) (pos e) ≡ (pos b, pos e) = ground arith in
      IsPending-of l _ (pos b, pos e) r (both b e (ground arith) (omega arith))
]
ordered-IsPending l (pos b) (negsuc e) p q n =
    let r : ordered (pos b) (negsuc e) ≡ (pos b, minus_one) = ground arith in
    IsPending-of l _ (pos b, minus_one) r (pending b (omega arith))
ordered-IsPending l (negsuc b) (pos e) p q n =
    let r : ordered (negsuc b) (pos e) ≡ (pos e, minus_one) = ground arith in
    IsPending-of l _ (pos e, minus_one) r (pending e (omega arith))
ordered-IsPending l (negsuc b) (negsuc e) p q n = absurd (ground arith)

-- What `checkRange` answers.
pub data IsChecked (l : Line) : ℤ × ℤ × Bool → Type 0 where
  refused : IsChecked l (minus_one, minus_one, false)
  accepted : (b e : ℤ) → IsPending l b e → IsChecked l (b, e, true)

clamp : (l : Line) (b : ℤ) → (if ltb_ℤ (len l) b then len l else b) ≤ℤ len l
clamp l b = elim (Bool-cases (ltb_ℤ (len l) b)) [
  | inl k ↦ rw k (omega arith)
  | inr k ↦ rw k (ground arith)
]

clamp_negative :
    (l : Line) (b : ℤ) → ltb_ℤ (if ltb_ℤ (len l) b then len l else b) (pos 0) ≡ ltb_ℤ b (pos 0)
clamp_negative l b = ground arith

IsChecked-of : (l : Line) (x y : ℤ × ℤ × Bool) → x ≡ y → IsChecked l y → IsChecked l x
IsChecked-of l x y e i = rw e i

pub check_selection_range-IsChecked :
    (l : Line) (b e : ℤ) → IsChecked l (check_selection_range l b e)
unfolding check_selection_range
check_selection_range-IsChecked l b e =
    let b' = if ltb_ℤ (len l) b then len l else b in
    let e' = if ltb_ℤ (len l) e then len l else e in
    elim (Bool-cases (
      is_empty l
      || ((ltb_ℤ b (pos 0) && ltb_ℤ e (pos 0)) || (ltb_ℤ (len l) b && ltb_ℤ (len l) e)))) [
        | inl k ↦
            let r : check_selection_range l b e ≡ (minus_one, minus_one, false) =
              rw (check_selection_range, k) refl in
            IsChecked-of l _ _ r refused
        | inr k ↦
            let r : check_selection_range l b e ≡ ((ordered b' e').0, (ordered b' e').1, true) =
              rw (check_selection_range, k) refl in
            let low = clamp_negative l b in
            let high = clamp_negative l e in
            let some_pos : (ltb_ℤ b' (pos 0) && ltb_ℤ e' (pos 0)) ≡ false =
              rw (low, high) (ground arith) in
            IsChecked-of l _ _ r
              (accepted _ _ (ordered-IsPending l b' e' (clamp l b) (clamp l e) some_pos))
      ]

IsRange-of : (l : Line) (x y : ℤ × ℤ) → x ≡ y → IsRange l y.0 y.1 → IsRange l x.0 x.1
IsRange-of l x y e i = rw e i

ordered-IsRange :
    (l : Line) (b e : ℕ)
    → b ≤ length l
    → e ≤ length l
    → IsRange l (ordered (pos b) (pos e)).0 (ordered (pos b) (pos e)).1
unfolding ordered
ordered-IsRange l b e p q = elim (Bool-cases (ltb e b)) [
  | inl k ↦
      let r : ordered (pos b) (pos e) ≡ (pos e, pos b) = ground arith in
      IsRange-of l _ (pos e, pos b) r (in_line e b (ground arith) p)
  | inr k ↦
      let r : ordered (pos b) (pos e) ≡ (pos b, pos e) = ground arith in
      IsRange-of l _ (pos b, pos e) r (in_line b e (ground arith) q)
]

-- A position, brought into the line.
abbrev clamped : Line → ℕ → ℕ
clamped l b = if ltb (length l) b then length l else b

clamped-pos :
    (l : Line) (b : ℕ) → (if ltb_ℤ (len l) (pos b) then len l else pos b) ≡ pos (clamped l b)
clamped-pos l b = ground arith

clamped-le : (l : Line) (b : ℕ) → clamped l b ≤ length l
clamped-le l b = ground arith

check_positive :
    (l : Line) (b e : ℕ)
    → (check_selection_range l (pos b) (pos e) ≡ (minus_one, minus_one, false))
      ⊎ (check_selection_range l (pos b) (pos e) ≡ (
        (ordered (pos (clamped l b)) (pos (clamped l e))).0,
        (ordered (pos (clamped l b)) (pos (clamped l e))).1,
        true,
      ))
unfolding check_selection_range
check_positive l b e =
    elim (Bool-cases (
      is_empty l
      || ((ltb_ℤ (pos b) (pos 0) && ltb_ℤ (pos e) (pos 0))
          || (ltb_ℤ (len l) (pos b) && ltb_ℤ (len l) (pos e))))) [
            | inl k ↦ inl (rw (check_selection_range, k) refl)
            | inr k ↦ inr (rw (check_selection_range, k, clamped-pos l b, clamped-pos l e) refl)
          ]

final_range-IsRange :
    (s : Selection) (b e : ℕ)
    → IsRange (line_of s) (final_range s (pos b) (pos e)).0 (final_range s (pos b) (pos e)).1
unfolding final_range line_of
final_range-IsRange s b e = elim (Bool-cases s.visual) [
  | inl v ↦
      let one = +ℤ-one e in
      elim (check_positive (line_of s) b (suc e)) [
        | inl k ↦ IsRange-of _ _ (minus_one, minus_one) (rw (v, one, k) refl) no_range
        | inr k ↦
            IsRange-of _ _
              (ordered (pos (clamped (line_of s) b)) (pos (clamped (line_of s) (suc e))))
              (rw (v, one, k) refl) (ordered-IsRange _ _ _ (clamped-le _ b) (clamped-le _ (suc e)))
      ]
  | inr v ↦ elim (check_positive (line_of s) b e) [
    | inl k ↦ IsRange-of _ _ (minus_one, minus_one) (rw (v, k) refl) no_range
    | inr k ↦
        IsRange-of _ _ (ordered (pos (clamped (line_of s) b)) (pos (clamped (line_of s) e)))
          (rw (v, k) refl) (ordered-IsRange _ _ _ (clamped-le _ b) (clamped-le _ e))
  ]
]

-- What `Pos` is to answer for a line.
abbrev Answers : Line → Selection × ℤ × ℤ → Type 0
Answers l r = (line_of r.0 ≡ l) × IsRange l r.1 r.2

with_final-Answers : (s : Selection) (b e : ℕ) → Answers (line_of s) (with_final (s, pos b, pos e))
unfolding with_final
with_final-Answers s b e = (refl, final_range-IsRange s b e)

select_to_cursor-Answers :
    (s : Selection) (b : ℤ) → Answers (line_of s) (with_final (select_to_cursor s b))
unfolding select_to_cursor line_of get_pos check_append
select_to_cursor-Answers s b =
    let (c, at) = get_pos s.cursor in
    let (low, high) = spanned c.line s.visual_line (pos_part b) (pos_part at) in
    with_final-Answers (record s { cursor = c }) low high

range_of-Answers :
    (s : Selection) (x : ℤ × ℤ × Bool)
    → IsChecked (line_of s) x
    → Answers (line_of s) (range_of s x)
unfolding range_of line_of
range_of-Answers s x refused = (refl, no_range)
range_of-Answers s x (accepted b e (pending n le)) =
    select_to_cursor-Answers (record s { bpos = pos n; epos = minus_one }) (pos n)
range_of-Answers s x (accepted b e (both n m le end)) =
    let set : eqb_ℤ (pos m) minus_one ≡ false = ground arith in
    rw set (with_final-Answers (record s { bpos = pos n; epos = pos m }) n m)

-- `Pos` gives -1 twice, or two positions in order within the line, whatever the fields of the selection
-- and the cursor are, and it does not change the line.
pub range-IsRange :
    (s : Selection)
    → (line_of (range s).0 ≡ line_of s) × IsRange (line_of s) (range s).1 (range s).2
unfolding range
range-IsRange s = elim (Bool-cases (is_empty (line_of s) || not s.active)) [
  | inl k ↦
      let r : range s ≡ (s, minus_one, minus_one) = rw (range, k) refl in rw r (refl, no_range)
  | inr k ↦
      let r : range s ≡ range_of s (check_selection_range (line_of s) s.bpos s.epos) =
        rw (range, k) refl in
      rw r (range_of-Answers s _ (check_selection_range-IsChecked (line_of s) s.bpos s.epos))
]
