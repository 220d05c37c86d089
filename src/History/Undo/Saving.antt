-- ===== src/History/Undo/Saving.antt =====
-- What `Save` and `Reset` leave (internal/history/undo.go).
use readline.Base.{ℕ, ◌≤◌, ◌≡◌, refl, false, Bool, arith, some, sym, ◌∙◌, ap, length}
use readline.Base.Int.{pos}
use readline.Core.Cursor.{Cursor, check_append}
use readline.Core.Cursor.Checks.{check_append-line}
use readline.History.Undo.{
  LineHistory, Source, Sources, line_key, get_line_history, put_line_history, save_line, save,
  reset,
}
use readline.History.Undo.Walk.{get_line_history-put_line_history, put_line_history-same}
use readline.History.Undo.Edit.{EndsWith, save_line-EndsWith}

-- The states do not depend on the flags or the cursor.
pub get_line_history-flags :
    (h : Sources) (c : Cursor) (s u : Bool)
    → get_line_history (record h { cursor = c; skip = s; undoing = u }) ≡ get_line_history h
unfolding get_line_history line_key
get_line_history-flags h c s u = refl

module _ (h : Sources) (s : Source) (e : h.current ≡ some s) where
  reset-get_line_history :
      h.undoing ≡ false → get_line_history (reset h) ≡ record (get_line_history h) { pos = pos 0 }
  unfolding reset
  reset-get_line_history u =
      rw u (get_line_history-put_line_history (record h { skip = false; undoing = false }) _ s e)

  reset-same :
      ((reset h).cursor ≡ h.cursor)
      × ((reset h).current ≡ h.current)
      × ((reset h).skip ≡ false)
      × ((reset h).undoing ≡ false)
  unfolding reset
  reset-same = ground (
    arith,
    put_line_history-same (record h { skip = false; undoing = false })
        (record (get_line_history h) { pos = pos 0 }),
  )

-- The flags between two commands, with a source to keep the states of the line.
pub record IsReady (h : Sources) : Type 0 where
  pub source : Source
  pub has_source : h.current ≡ some source
  pub not_skip : h.skip ≡ false
  pub not_undoing : h.undoing ≡ false

-- A state of the line is saved, and nothing is undone.
pub record IsSynced (h : Sources) : Type 0 where
  pub ready : IsReady h
  pub at_newest : (get_line_history h).pos ≡ pos 0
  pub ends : EndsWith h.cursor.line (get_line_history h)

pub save_of :
    (h : Sources) (lh : LineHistory)
    → h.skip ≡ false
    → save_line h ≡ some (put_line_history (record h { cursor = check_append h.cursor }) lh)
    → save h ≡ some (reset (put_line_history (record h { cursor = check_append h.cursor }) lh))
unfolding save
save_of h lh skip e = simp (skip, e)

module _ (h : Sources) (lh : LineHistory) (r : IsReady h) where
  -- What `save` leaves when it writes these states.
  unfoldable pub saved : Sources
  saved = reset (put_line_history (record h { cursor = check_append h.cursor }) lh)

  pub saved_source :
      (put_line_history (record h { cursor = check_append h.cursor }) lh).current ≡ some r.source
  saved_source =
      (put_line_history-same (record h { cursor = check_append h.cursor }) lh).1 ∙ r.has_source

  pub saved_states : get_line_history saved ≡ record lh { pos = pos 0 }
  unfolding saved
  saved_states =
      reset-get_line_history _ r.source saved_source
        ((put_line_history-same (record h { cursor = check_append h.cursor }) lh).4 ∙ r.not_undoing)
      ∙ ap (λ (k : LineHistory). record k { pos = pos 0 })
          (get_line_history-put_line_history (record h { cursor = check_append h.cursor }) lh
            r.source r.has_source)

  pub saved_line : saved.cursor.line ≡ h.cursor.line
  unfolding saved
  saved_line =
      ap (λ (c : Cursor). c.line)
        ((reset-same _ r.source saved_source).0
          ∙ (put_line_history-same (record h { cursor = check_append h.cursor }) lh).0)
      ∙ check_append-line h.cursor

  pub saved-IsReady : IsReady saved
  unfolding saved
  saved-IsReady = record {
    source = r.source;
    has_source = (reset-same _ r.source saved_source).1 ∙ saved_source;
    not_skip = (reset-same _ r.source saved_source).2;
    not_undoing = (reset-same _ r.source saved_source).3;
  }

-- After a save at a valid undo position the newest state is that of the line, nothing is undone, and
-- the line is the same.
pub save-IsSynced :
    (h : Sources) (p : ℕ)
    → IsReady h
    → (get_line_history h).pos ≡ pos p
    → p ≤ length (get_line_history h).items
    → (h' : Sources) × (save h ≡ some h') × IsSynced h' × (h'.cursor.line ≡ h.cursor.line)
unfolding saved
save-IsSynced h p r at le =
    let (lh, e, at', ends) = save_line-EndsWith h p at le in
    (
      saved h lh r,
      save_of h lh r.not_skip e,
      record {
        ready = saved-IsReady h lh r;
        at_newest = ap (λ (k : LineHistory). k.pos) (saved_states h lh r);
        ends = (
          ends.0,
          ends.1,
          ap (λ (k : LineHistory). k.items) (saved_states h lh r) ∙ ends.2,
          ends.3 ∙ sym (saved_line h lh r),
        );
      },
      saved_line h lh r,
    )
