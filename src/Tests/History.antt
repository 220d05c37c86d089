-- ===== src/Tests/History.antt =====
-- The theorems about internal/history at concrete inputs, and runs of the model.
use readline.Base.{◌++◌, ◌≡◌, ◌≢◌, refl, false, [], ◌∷◌, none, some}
use readline.Base.Int.{pos, minus_one, ◌-ℤ◌}
use readline.Core.Line.{Line}
use readline.Core.Cursor.{Cursor}
use readline.Core.Cursor.Command.{cursor_at}
use readline.History.Undo.{
  kept_items, LineHistory, Source, Sources, get_line_history, save, undo, redo,
}
use readline.History.Undo.Saving.{IsReady, IsSynced}
use readline.History.Undo.Undoing.{undo-edit}
use readline.History.Undo.Redoing.{redo-undo-edit, redo_without_undo}

abbrev old : Line
old = b'l' ∷ b's' ∷ []

abbrev new : Line
new = b'l' ∷ []

abbrev memory : Source
memory = record { name = b'm' ∷ []; entries = (b'x' ∷ []) ∷ [] }

abbrev saved_old : LineHistory
saved_old = record { pos = pos 0; items = record { line = old; pos = pos 1 } ∷ [] }

-- The line "ls", which is saved.
abbrev synced : Sources
synced = record {
  cursor = cursor_at 1 minus_one old;
  current = some memory;
  hpos = minus_one;
  skip = false;
  undoing = false;
  lines = λ name key. saved_old;
  spare = λ items. [];
}

-- The edit to "l".
abbrev edit : Cursor
edit = cursor_at 1 minus_one new

new-ne-old : edit.line ≢ synced.cursor.line
new-ne-old e = cc

synced-IsReady : IsReady synced
synced-IsReady = record { source = memory; has_source = refl; not_skip = refl; not_undoing = refl }

synced-IsSynced : IsSynced synced
unfolding get_line_history
synced-IsSynced = record {
  ready = synced-IsReady;
  at_newest = refl;
  ends = ([], record { line = old; pos = pos 1 }, refl, refl);
}

undo-edit_example :
    (h₁ : Sources) × (h₂ : Sources) × (save (record synced { cursor = edit }) ≡ some h₁)
    × (undo h₁ ≡ some h₂)
    × (h₂.cursor.line ≡ old)
undo-edit_example = undo-edit synced edit synced-IsSynced new-ne-old

redo-undo-edit_example :
    (h₁ : Sources) × (h₂ : Sources) × (h₃ : Sources) × (h₄ : Sources) × (save
        (record synced { cursor = edit })
      ≡ some h₁)
    × (undo h₁ ≡ some h₂)
    × (save h₂ ≡ some h₃)
    × (redo h₃ ≡ some h₄)
    × (h₄.cursor.line ≡ new)
redo-undo-edit_example = redo-undo-edit synced edit synced-IsSynced new-ne-old

redo_without_undo_example :
    (h₁ : Sources) × (h₂ : Sources) × (redo synced ≡ some h₁)
    × (save h₁ ≡ some h₂)
    × ((get_line_history h₂).pos ≡ minus_one)
    × (undo h₂ ≡ none)
redo_without_undo_example = redo_without_undo synced synced-IsSynced

-- From the undo position -1 the slice of `Save` panics without spare capacity, and else keeps what is
-- there.
kept_items-spare :
    (kept_items (λ items. []) (record saved_old { pos = minus_one }) ≡ none)
    × (kept_items (λ items. items) (record saved_old { pos = minus_one })
        ≡ some (saved_old.items ++ saved_old.items))
unfolding kept_items ◌-ℤ◌
kept_items-spare = (refl, refl)
