-- ===== src/History/Sources/Walking.antt =====
-- A walk through the history and back (internal/history/sources.go).
use readline.Base.{
  ℕ, ◌≤◌, ◌≡◌, refl, sym, ap, ◌∙◌, false, some, List, [], ◌∷◌, ◌++◌, is_empty, length, arith,
  Option-cases, inl, inr, get_elem?_lt,
}
use readline.Base.Int.{ℤ, pos, minus_one, ◌+ℤ◌, -ℤ-one}
use readline.Core.Line.{Line}
use readline.Core.Cursor.{set_pos, check_append}
use readline.History.Undo.{
  Source, Sources, UndoItem, LineHistory, get_line_history, line_key, last, save, save_line, reset,
  put_line_history, restore,
}
use readline.History.Undo.Saving.{IsReady, save-IsSynced}
use readline.History.Names.{current}
use readline.History.Match.Newest.{get_line-in}
use readline.History.Sources.{
  History, with_current, set_line_cursor_match, restore_line_buffer, leave_line, show_line, arrive,
  walk_in, walk,
}

last-snoc : (front : List UndoItem) (x : UndoItem) → last (front ++ x ∷ []) ≡ some x
unfolding last
last-snoc [] x = refl
last-snoc (y ∷ []) x = refl
last-snoc (y ∷ (z ∷ front)) x = last-snoc (z ∷ front) x

-- The parts of the state that a save keeps.
abbrev Same : Sources → Sources → Type 0
Same w w' = (w'.hpos ≡ w.hpos) × (w'.current ≡ w.current)

put_line_history-Same : (w : Sources) (lh : LineHistory) → Same w (put_line_history w lh)
unfolding put_line_history
put_line_history-Same w lh = ground arith

reset-Same : (w : Sources) → Same w (reset w)
unfolding reset put_line_history
reset-Same w = ground arith

save_line-Same : (w w' : Sources) → save_line w ≡ some w' → Same w w'
unfolding save_line put_line_history
save_line-Same w w' e = ground arith

save-Same : (w w' : Sources) → save w ≡ some w' → Same w w'
unfolding save
save-Same w w' e =
    let skipped = reset-Same w in
    elim (Option-cases (save_line w)) [
      | inl n ↦ ground arith
      | inr (v, n) ↦ let r = reset-Same v in let l = save_line-Same w v n in ground arith
    ]

show_line-one :
    (h : History) (entries : List Line)
    → h.walking.hpos ≡ pos 1
    → 1 ≤ length entries
    → (line : Line) × (show_line h entries ≡ some (set_line_cursor_match h line))
unfolding show_line
show_line-one h [] e one = absurd (omega arith)
show_line-one h (first ∷ rest) e one =
    elim (Option-cases (last (get_line_history h.walking).items)) [
      | inl k ↦
          let (line, f) = get_elem?_lt (first ∷ rest) (length rest) (omega arith) in
          let found = get_line-in (first ∷ rest) (length rest) line f in
          let at = -ℤ-one (length rest) in (line, ground arith)
      | inr (item, k) ↦ (item.line, ground arith)
    ]

restore_line_buffer_lem :
    (w : Sources) (source : Source) (front : List UndoItem) (x : UndoItem)
    → w.current ≡ some source
    → (w.lines source.name minus_one).items ≡ front ++ x ∷ []
    → ((restore_line_buffer w).cursor.line ≡ x.line) × ((restore_line_buffer w).hpos ≡ minus_one)
unfolding restore_line_buffer restore set_pos check_append
restore_line_buffer_lem w source front x c e = let newest = last-snoc front x in ground arith

get_line_history-main :
    (w : Sources) (source : Source)
    → w.current ≡ some source
    → w.hpos ≡ minus_one
    → get_line_history w ≡ w.lines source.name minus_one
unfolding get_line_history line_key
get_line_history-main w source c e = rw (c, e) refl

-- The state with the source that `Current` answers.
abbrev at_source : History → Source → History
at_source h source = record h { walking = record h.walking { current = some source } }

walk-walk_in :
    (h : History) (source : Source) (step : ℤ)
    → current h.sources ≡ some (some source)
    → 1 ≤ length source.entries
    → walk h step ≡ walk_in (at_source h source) source.entries step
unfolding walk with_current
walk-walk_in h source step c one =
    let some_line : is_empty source.entries ≡ false = ground arith in rw (c, some_line) refl

walk_in-leave :
    (h : History) (source : Source) (w : Sources)
    → h.walking.hpos ≡ minus_one
    → save (record h.walking { skip = false }) ≡ some w
    → 1 ≤ length source.entries
    → walk_in h source.entries (pos 1)
      ≡ show_line
          (record h { walking = record w { hpos = pos 1 }; cpos = minus_one })
          source.entries
unfolding walk_in leave_line arrive ◌+ℤ◌
walk_in-leave h source w e s one = ground arith

walk_in-return :
    (h : History) (entries : List Line)
    → h.walking.hpos ≡ pos 1
    → walk_in h entries minus_one
      ≡ some (record h { walking = restore_line_buffer (record h.walking { hpos = pos 0 }) })
unfolding walk_in leave_line arrive ◌+ℤ◌
walk_in-return h entries e = ground arith

-- What a line of the history that is shown keeps.
set_line_cursor_match-same :
    (h : History) (next : Line)
    → ((set_line_cursor_match h next).walking.hpos ≡ h.walking.hpos)
      × ((set_line_cursor_match h next).walking.lines ≡ h.walking.lines)
      × ((set_line_cursor_match h next).sources ≡ h.sources)
unfolding set_line_cursor_match
set_line_cursor_match-same h next = (refl, refl, refl)

-- With a line that is edited, and a source that is not empty, a walk to the newest line of the history
-- and a walk back return, and give the line back, for any valid undo position.
pub walk-walk :
    (h : History) (source : Source) (p : ℕ)
    → current h.sources ≡ some (some source)
    → 1 ≤ length source.entries
    → h.walking.hpos ≡ minus_one
    → h.walking.undoing ≡ false
    → (h.walking.lines source.name minus_one).pos ≡ pos p
    → p ≤ length (h.walking.lines source.name minus_one).items
    → (h' : History) × (h'' : History) × (walk h (pos 1) ≡ some h')
      × (h'.walking.hpos ≡ pos 1)
      × (walk h' minus_one ≡ some h'')
      × (h''.walking.hpos ≡ minus_one)
      × (h''.walking.cursor.line ≡ h.walking.cursor.line)
unfolding set_line_cursor_match
walk-walk h source p c one e u at le =
    let w = record h.walking { current = some source; skip = false } in
    let main = get_line_history-main w source refl e in
    let ready : IsReady w = record {
      source = source;
      has_source = refl;
      not_skip = refl;
      not_undoing = u;
    } in
    let (w', s, synced, line) = save-IsSynced w p ready (rw main at) (rw main le) in
    let same = save-Same w w' s in
    let left = record (at_source h source) {
      walking = record w' { hpos = pos 1 };
      cpos = minus_one;
    } in
    let (shown, f) = show_line-one left source.entries refl one in
    let h' = set_line_cursor_match left shown in
    let main' = get_line_history-main w' source same.1 (same.0 ∙ e) in
    let (front, x, items, is_line) = synced.ends in
    let back =
      restore_line_buffer_lem (record h'.walking { current = some source; hpos = pos 0 }) source
        front x refl (ap (λ (k : LineHistory). k.items) (sym main') ∙ items) in
    (
      h',
      record (at_source h' source) {
        walking = restore_line_buffer (record h'.walking { current = some source; hpos = pos 0 });
      },
      walk-walk_in h source (pos 1) c one
          ∙ walk_in-leave (at_source h source) source w' e s one
          ∙ f,
      (set_line_cursor_match-same left shown).0,
      walk-walk_in h' source minus_one c one
          ∙ walk_in-return (at_source h' source) source.entries refl,
      back.1,
      back.0 ∙ is_line ∙ line,
    )
