-- ===== src/History/Undo/Walk.antt =====
-- The loop of `Undo` (internal/history/undo.go), and the reads and writes of the states of a line.
use readline.Base.{
  ℕ, zero, suc, ◌+◌, ◌-◌, ◌≤◌, ◌<◌, ◌≡◌, ◌≢◌, ◌⊎◌, refl, inl, inr, false, List, [], ◌∷◌, ◌++◌,
  arith, Option, none, some, ◌∙◌, ap, length, length-take, get_elem?, take, eqb, eqb_refl, eqb→eq,
  Bool-cases, if◌then◌else◌, append_assoc,
}
use readline.Base.Int.{ℤ, pos, ◌+ℤ◌, +ℤ-one}
use readline.Core.Line.{Line}
use readline.History.Undo.{
  UndoItem, LineHistory, Source, Sources, get_line_history, put_line_history, undo_loop,
}

-- What is written to the states of the current line is read back, and nothing else is changed.
pub get_line_history-put_line_history :
    (h : Sources) (lh : LineHistory) (s : Source)
    → h.current ≡ some s
    → get_line_history (put_line_history h lh) ≡ lh
unfolding get_line_history put_line_history
get_line_history-put_line_history h lh s e = ground (arith, eqb_refl s.name)

pub put_line_history-same :
    (h : Sources) (lh : LineHistory)
    → ((put_line_history h lh).cursor ≡ h.cursor)
      × ((put_line_history h lh).current ≡ h.current)
      × ((put_line_history h lh).hpos ≡ h.hpos)
      × ((put_line_history h lh).skip ≡ h.skip)
      × ((put_line_history h lh).undoing ≡ h.undoing)
unfolding put_line_history
put_line_history-same h lh = ground arith

-- The states all hold this line.
abbrev pub AllLine : Line → List UndoItem → Type 0
AllLine line [] = Unit
AllLine line (x ∷ xs) = (x.line ≡ line) × AllLine line xs

-- The newest of the states that holds another line, with the undo position that it is at, or none,
-- where `older` are the states that are left, of `count` in all.
abbrev pub Newest : List UndoItem → ℕ → Line → ℤ × Option UndoItem → Type 0
Newest older count line r =
    ((front : List UndoItem) × (x : UndoItem) × (back : List UndoItem) × (older ≡ front ++ x ∷ back)
      × (x.line ≢ line)
      × AllLine line back
      × (r ≡ (pos (count - length front), some x)))
    ⊎ (AllLine line older × (r ≡ (pos count, none)))

AllLine-append :
    (line : Line) (xs ys : List UndoItem)
    → AllLine line xs
    → AllLine line ys
    → AllLine line (xs ++ ys)
AllLine-append line [] ys h k = k
AllLine-append line (x ∷ xs) ys (e, h) k = (e, AllLine-append line xs ys h k)

take_snoc :
    (items : List UndoItem) (n : ℕ)
    → n < length items
    → (x : UndoItem) × (get_elem? items n ≡ some x) × (take (suc n) items ≡ take n items ++ x ∷ [])
take_snoc [] n h = elim h [ ]
take_snoc (x ∷ xs) zero h = (x, refl, refl)
take_snoc (x ∷ xs) (suc n) h =
    let (y, e, split) = take_snoc xs n (omega arith) in (y, e, ap (x ∷◌) split)

Newest-skip :
    (older : List UndoItem) (x : UndoItem) (count : ℕ) (line : Line) (r : ℤ × Option UndoItem)
    → x.line ≡ line
    → Newest older count line r
    → Newest (older ++ x ∷ []) count line r
Newest-skip older x count line r e (inl (front, y, back, split, other, same, at)) = inl (
  front,
  y,
  back ++ x ∷ [],
  ap (◌++ x ∷ []) split ∙ append_assoc front (y ∷ back) (x ∷ []),
  other,
  AllLine-append line back (x ∷ []) same (e, tt),
  at,
)
Newest-skip older x count line r e (inr (same, at)) =
    inr (AllLine-append line older (x ∷ []) same (e, tt), at)

pub eqb-ne : (a b : Line) → eqb a b ≡ false → a ≢ b
eqb-ne a b h e = cc (eqb_refl b)

pub undo_loop_end :
    (items : List UndoItem) (line : Line) (at n : ℕ)
    → length items ≤ at
    → undo_loop items line (pos at) (suc n) ≡ some (pos (length items), none)
unfolding undo_loop ◌+ℤ◌
undo_loop_end items line at n h = ground arith

pub undo_loop_step :
    (items : List UndoItem) (line : Line) (at n : ℕ) (x : UndoItem)
    → at < length items
    → get_elem? items (length items - suc at) ≡ some x
    → undo_loop items line (pos at) (suc n) ≡ (
        if eqb x.line line
        then undo_loop items line (pos (suc at)) n
        else some (pos (suc at), some x))
unfolding undo_loop
undo_loop_step items line at n x h e = ground (arith, +ℤ-one at)

-- From a valid position the loop of `Undo` ends: it finds the newest of the states left that holds
-- another line, or passes the oldest.
undo_loop_lem :
    (items : List UndoItem) (line : Line) (at n left : ℕ)
    → at + left ≡ length items
    → left < n
    → (r : ℤ × Option UndoItem) × (undo_loop items line (pos at) n ≡ some r)
      × Newest (take left items) (length items) line r
undo_loop_lem items line at zero left h lt = absurd (omega arith)
undo_loop_lem items line at (suc n) zero h lt =
    ((pos (length items), none), undo_loop_end items line at n (omega arith), inr (tt, refl))
undo_loop_lem items line at (suc n) (suc left) h lt =
    let (x, e, split) = take_snoc items left (omega arith) in
    let here : length items - suc at ≡ left = omega arith in
    let step = undo_loop_step items line at n x (omega arith) (rw here e) in
    elim (Bool-cases (eqb x.line line)) [
      | inl same ↦
          let (r, later, newest) =
            undo_loop_lem items line (suc at) n left (omega arith) (omega arith) in
          (
            r,
            step ∙ rw same later,
            rw split (
                Newest-skip (take left items) x (length items) line r (eqb→eq x.line line same)
                  newest),
          )
      | inr other ↦ (
        (pos (suc at), some x),
        step ∙ rw other refl,
        inl (
          take left items,
          x,
          [],
          split,
          (λ same. eqb-ne x.line line other same),
          tt,
          ap (λ k. (pos k, some x)) (omega (arith, length-take {0} left items)),
        ),
      )
    ]
