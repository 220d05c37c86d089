-- ===== src/History/Undo/Redoing.antt =====
-- An edit that was undone, redone (internal/history/undo.go).
use readline.Base.{
  ℕ, zero, suc, ◌+◌, ◌-◌, ◌≡◌, ◌≢◌, refl, true, false, List, [], ◌∷◌, ◌++◌, arith, none, some, ◌∙◌,
  ap, length, length-append, get_elem?-append, is_empty,
}
use readline.Base.Int.{pos, minus_one, ◌-ℤ◌, ◌+ℤ◌}
use readline.Core.Line.{Line}
use readline.Core.Cursor.{Cursor}
use readline.History.Undo.{
  UndoItem, LineHistory, Source, Sources, get_line_history, put_line_history, save, reset, undo,
  redo, undo_loop, restore,
}
use readline.History.Undo.Walk.{get_line_history-put_line_history, put_line_history-same}
use readline.History.Undo.Saving.{get_line_history-flags, IsSynced}
use readline.History.Undo.Undoing.{Undone, undo-Edited, save-Edited, is_empty-snoc, restore-line}

save_skipped :
    (h : Sources)
    → h.skip ≡ true
    → h.undoing ≡ true
    → save h ≡ some (record h { skip = false; undoing = false })
unfolding save reset
save_skipped h s u = simp (s, u)

-- The save behind an undo command keeps the undo position: it only resets the flags.
save-Undone :
    (h : Sources) (new : Line)
    → Undone h new
    → save h ≡ some (record h { skip = false; undoing = false })
save-Undone h new un = save_skipped h un.skips un.undoes

redo-after :
    (h : Sources) (source : Source) (front : List UndoItem) (after : UndoItem)
    → h.current ≡ some source
    → get_line_history h ≡ record { pos = pos 2; items = front ++ after ∷ [] }
    → (h' : Sources) × (redo h ≡ some h') × (h'.cursor.line ≡ after.line)
unfolding redo ◌-ℤ◌
redo-after h source front after c e = (
  restore h' after,
  simp (e, is_empty-snoc)
      (ground (
        arith,
        size,
        get_elem?-append front [] after (length (front ++ after ∷ []) - 1) (omega (arith, size)),
      )),
  restore-line h' after,
)
  where
    size : length (front ++ after ∷ []) ≡ length front + 1
    size = omega (arith, length-append {0} front (after ∷ []))

    h' : Sources
    h' =
        put_line_history (record h { skip = true; undoing = true })
          (record { pos = pos 1; items = front ++ after ∷ [] })

-- An edit that was undone comes back by a redo, with the saves that follow each command in between.
pub redo-undo-edit :
    (h : Sources) (c : Cursor)
    → IsSynced h
    → c.line ≢ h.cursor.line
    → (h₁ : Sources) × (h₂ : Sources) × (h₃ : Sources) × (h₄ : Sources) × (save
          (record h { cursor = c })
        ≡ some h₁)
      × (undo h₁ ≡ some h₂)
      × (save h₂ ≡ some h₃)
      × (redo h₃ ≡ some h₄)
      × (h₄.cursor.line ≡ c.line)
redo-undo-edit h c v n =
    let (h₁, e, ed) = save-Edited h c v n in
    let (h₂, u, line, un) = undo-Edited h₁ h.cursor.line c.line ed n in
    let h₃ : Sources = record h₂ { skip = false; undoing = false } in
    let (h₄, r, same) =
      redo-after h₃ un.source un.front un.after un.has_source
        (get_line_history-flags h₂ h₂.cursor false false ∙ un.states) in
    (h₁, h₂, h₃, h₄, e, u, save-Undone h₂ c.line un, r, same ∙ un.after_line)

undo_loop-below :
    (items : List UndoItem) (line : Line) (rounds : ℕ)
    → undo_loop items line minus_one rounds ≡ none
unfolding undo_loop ◌+ℤ◌
undo_loop-below items line zero = refl
undo_loop-below items line (suc rounds) = ground arith

-- From the position -1 an undo reads the state behind the newest one.
undo-none :
    (h : Sources) (items : List UndoItem)
    → get_line_history h ≡ record { pos = minus_one; items = items }
    → is_empty items ≡ false
    → undo h ≡ none
unfolding undo
undo-none h items e full = simp (e, full, undo_loop-below items h.cursor.line)

redo_first :
    (h : Sources) (items : List UndoItem)
    → get_line_history h ≡ record { pos = pos 0; items = items }
    → is_empty items ≡ false
    → redo h
      ≡ some (
          put_line_history
            (record h { skip = true; undoing = true })
            (record { pos = minus_one; items = items }))
unfolding redo ◌-ℤ◌
redo_first h items e full = simp (e, full)

-- A redo with nothing undone goes below the undo position 0, where the save behind it leaves the
-- position, and the undo behind that panics. The line is to be saved, with nothing undone.
pub redo_without_undo :
    (h : Sources)
    → IsSynced h
    → (h₁ : Sources) × (h₂ : Sources) × (redo h ≡ some h₁)
      × (save h₁ ≡ some h₂)
      × ((get_line_history h₂).pos ≡ minus_one)
      × (undo h₂ ≡ none)
redo_without_undo h v =
    let (front, x, split, line) = v.ends in
    let lh : LineHistory = record { pos = minus_one; items = front ++ x ∷ [] } in
    let flagged : Sources = record h { skip = true; undoing = true } in
    let same = put_line_history-same flagged lh in
    let h₁ : Sources = put_line_history flagged lh in
    let states = get_line_history-put_line_history flagged lh v.ready.source v.ready.has_source in
    let h₂ : Sources = record h₁ { skip = false; undoing = false } in
    let kept = get_line_history-flags h₁ h₁.cursor false false ∙ states in
    (
      h₁,
      h₂,
      redo_first h (front ++ x ∷ []) (λ i. record { pos = v.at_newest i; items = split i })
          (is_empty-snoc front x),
      save_skipped h₁ same.3 same.4,
      ap (λ (k : LineHistory). k.pos) kept,
      undo-none h₂ (front ++ x ∷ []) kept (is_empty-snoc front x),
    )
