-- ===== src/History/Undo/Undoing.antt =====
-- An edit, saved and undone (internal/history/undo.go).
use readline.Base.{
  ℕ, suc, ◌+◌, ◌≡◌, ◌≢◌, refl, inl, inr, true, false, List, [], ◌∷◌, ◌++◌, arith, some, sym, ◌∙◌,
  ap, length, length-append, take_all, get_elem?-append, eqb, eqb_refl, eqb→eq, Bool-cases,
  append_assoc, is_empty,
}
use readline.Base.Int.{ℤ, pos}
use readline.Core.Line.{Line}
use readline.Core.Cursor.{Cursor, check_append}
use readline.Core.Cursor.Checks.{check_append-line, set_pos_lem}
use readline.History.Undo.{
  UndoItem, LineHistory, Source, Sources, line_key, get_line_history, put_line_history, undo_loop,
  is_saved, new_item, save_line, save, undo, restore,
}
use readline.History.Undo.Walk.{
  get_line_history-put_line_history, put_line_history-same, undo_loop_step,
}
use readline.History.Undo.Edit.{is_saved-snoc, new_item_lem, save_line-new}
use readline.History.Undo.Saving.{
  IsReady, IsSynced, save_of, saved, saved_states, saved_line, saved-IsReady,
}

-- The newest two states, of an edit and of the line before it.
pub record Edited (h : Sources) (old new : Line) : Type 0 where
  pub ready : IsReady h
  pub front : List UndoItem
  pub before : UndoItem
  pub after : UndoItem
  states : get_line_history h ≡ record { pos = pos 0; items = (front ++ before ∷ []) ++ after ∷ [] }
  pub before_line : before.line ≡ old
  pub after_line : after.line ≡ new
  pub now : h.cursor.line ≡ new

pub edited-IsReady : (h : Sources) (c : Cursor) → IsReady h → IsReady (record h { cursor = c })
edited-IsReady h c r = record {
  source = r.source;
  has_source = r.has_source;
  not_skip = r.not_skip;
  not_undoing = r.not_undoing;
}

pub ne-eqb : (a b : Line) → a ≢ b → eqb a b ≡ false
ne-eqb a b n = elim (Bool-cases (eqb a b)) [ inl e ↦ absurd (n (eqb→eq a b e)) | inr e ↦ e ]

save_edit :
    (h : Sources) (c : Cursor) (front : List UndoItem) (x item : UndoItem)
    → (get_line_history h).pos ≡ pos 0
    → (get_line_history h).items ≡ front ++ x ∷ []
    → x.line ≢ c.line
    → new_item (check_append c) ≡ some item
    → save_line (record h { cursor = c })
      ≡ some (
          put_line_history
            (record h { cursor = check_append c })
            (record { items = (front ++ x ∷ []) ++ item ∷ []; pos = pos 0 }))
unfolding get_line_history check_append
save_edit h c front x item at split n made =
    save_line-new (record h { cursor = c }) 0 item
      (ap (λ items. is_saved items c.line) split
        ∙ is_saved-snoc front x c.line
        ∙ ne-eqb x.line c.line n)
      at (omega arith) made
    ∙ ap
        (λ items. some (
          put_line_history (record h { cursor = check_append c })
            (record { items = items ++ item ∷ []; pos = pos 0 })))
        (take_all _ _ (omega arith) ∙ split)

pub save-Edited :
    (h : Sources) (c : Cursor)
    → IsSynced h
    → c.line ≢ h.cursor.line
    → (h' : Sources) × (save (record h { cursor = c }) ≡ some h') × Edited h' h.cursor.line c.line
unfolding saved
save-Edited h c v n =
    let (item, made, line) = new_item_lem (check_append c) in
    let (front, x, split, x_line) = v.ends in
    let lh : LineHistory = record { items = (front ++ x ∷ []) ++ item ∷ []; pos = pos 0 } in
    (
      saved (record h { cursor = c }) lh (edited-IsReady h c v.ready),
      save_of (record h { cursor = c }) lh v.ready.not_skip
          (save_edit h c front x item v.at_newest split (λ same. n (sym same ∙ x_line)) made),
      record {
        ready = saved-IsReady (record h { cursor = c }) lh (edited-IsReady h c v.ready);
        front = front;
        before = x;
        after = item;
        states = saved_states (record h { cursor = c }) lh (edited-IsReady h c v.ready);
        before_line = x_line;
        after_line = line ∙ check_append-line c;
        now = saved_line (record h { cursor = c }) lh (edited-IsReady h c v.ready);
      },
    )

undo_loop_edit :
    (front : List UndoItem) (x y : UndoItem) (line : Line) (n : ℕ)
    → eqb y.line line ≡ true
    → eqb x.line line ≡ false
    → undo_loop ((front ++ x ∷ []) ++ y ∷ []) line (pos 0) (suc (suc n)) ≡ some (pos 2, some x)
undo_loop_edit front x y line n same other =
    undo_loop_step items line 0 (suc n) y (omega (arith, size)) (
      get_elem?-append (front ++ x ∷ []) [] y _
        (omega (arith, size, length-append {0} front (x ∷ []))))
    ∙ rw same (
        undo_loop_step items line 1 n x (omega (arith, size)) (
          rw append_assoc (
            get_elem?-append front (y ∷ []) x _
              (omega (arith, size, ap length (append_assoc front (x ∷ []) (y ∷ []))))))
        ∙ rw other refl)
  where
    items : List UndoItem
    items = (front ++ x ∷ []) ++ y ∷ []

    size : length items ≡ length front + 2
    size =
        omega
          (arith, length-append {0} (front ++ x ∷ []) (y ∷ []), length-append {0} front (x ∷ []))

-- `Undo` goes to the state that its loop finds.
undo-found :
    (h : Sources) (items : List UndoItem) (at : ℤ) (item : UndoItem)
    → get_line_history h ≡ record { pos = pos 0; items = items }
    → is_empty items ≡ false
    → undo_loop items h.cursor.line (pos 0) (length items + 0 + 2) ≡ some (at, some item)
    → undo h
      ≡ some (
          restore
            (put_line_history
              (record h { skip = true; undoing = true })
              (record { pos = at; items = items }))
            item)
unfolding undo
undo-found h items at item e full found = simp (e, full, found)

pub restore-line : (h : Sources) (item : UndoItem) → (restore h item).cursor.line ≡ item.line
unfolding restore
restore-line h item = (set_pos_lem (record h.cursor { line = item.line }) item.pos).0

-- What the undo of an edit leaves.
pub record Undone (h : Sources) (new : Line) : Type 0 where
  pub source : Source
  pub has_source : h.current ≡ some source
  pub skips : h.skip ≡ true
  pub undoes : h.undoing ≡ true
  pub front : List UndoItem
  pub after : UndoItem
  pub states : get_line_history h ≡ record { pos = pos 2; items = front ++ after ∷ [] }
  pub after_line : after.line ≡ new

pub is_empty-snoc : (xs : List UndoItem) (y : UndoItem) → is_empty (xs ++ y ∷ []) ≡ false
is_empty-snoc [] y = refl
is_empty-snoc (x ∷ xs) y = refl

Undone-restore :
    (k : Sources) (item : UndoItem) (source : Source) (front : List UndoItem) (after : UndoItem)
    (new : Line)
    → k.current ≡ some source
    → k.skip ≡ true
    → k.undoing ≡ true
    → get_line_history k ≡ record { pos = pos 2; items = front ++ after ∷ [] }
    → after.line ≡ new
    → Undone (restore k item) new
unfolding restore get_line_history line_key
Undone-restore k item source front after new c s u e line = record {
  source = source;
  has_source = c;
  skips = s;
  undoes = u;
  front = front;
  after = after;
  states = e;
  after_line = line;
}

pub undo-Edited :
    (h : Sources) (old new : Line)
    → Edited h old new
    → new ≢ old
    → (h' : Sources) × (undo h ≡ some h') × (h'.cursor.line ≡ old) × Undone h' new
undo-Edited h old new ed n = (
  restore h' ed.before,
  undo-found h items (pos 2) ed.before ed.states (is_empty-snoc _ ed.after) (
      ap (undo_loop items h.cursor.line (pos 0)) rounds
      ∙ undo_loop_edit ed.front ed.before ed.after h.cursor.line (length items)
          (same_line ed.after_line ed.now)
          (ne-eqb _ _ (λ e. n (sym ed.now ∙ sym e ∙ ed.before_line)))),
  restore-line h' ed.before ∙ ed.before_line,
  restored h' ed.before (put_line_history-same (record h { skip = true; undoing = true }) states) (
      get_line_history-put_line_history (record h { skip = true; undoing = true }) states
        ed.ready.source ed.ready.has_source),
)
  where
    items : List UndoItem
    items = (ed.front ++ ed.before ∷ []) ++ ed.after ∷ []

    states : LineHistory
    states = record { pos = pos 2; items = items }

    h' : Sources
    h' = put_line_history (record h { skip = true; undoing = true }) states

    rounds : length items + 0 + 2 ≡ suc (suc (length items))
    rounds = omega arith

    same_line : {a b c : Line} → a ≡ c → b ≡ c → eqb a b ≡ true
    same_line {a} {b} {c} p q = rw (p, q) (eqb_refl c)

    restored :
        (k : Sources) (item : UndoItem)
        → ((k.cursor ≡ h.cursor)
            × (k.current ≡ h.current)
            × (k.hpos ≡ h.hpos)
            × (k.skip ≡ true)
            × (k.undoing ≡ true))
        → get_line_history k ≡ states
        → Undone (restore k item) new
    restored k item same e =
        Undone-restore k item ed.ready.source (ed.front ++ ed.before ∷ []) ed.after new
          (same.1 ∙ ed.ready.has_source) same.3 same.4 e ed.after_line

-- An edit of a saved line, saved in turn and then undone, gives the saved line back.
pub undo-edit :
    (h : Sources) (c : Cursor)
    → IsSynced h
    → c.line ≢ h.cursor.line
    → (h₁ : Sources) × (h₂ : Sources) × (save (record h { cursor = c }) ≡ some h₁)
      × (undo h₁ ≡ some h₂)
      × (h₂.cursor.line ≡ h.cursor.line)
undo-edit h c v n =
    let (h₁, e, ed) = save-Edited h c v n in
    let (h₂, u, line, more) = undo-Edited h₁ h.cursor.line c.line ed n in (h₁, h₂, e, u, line)
