-- ===== src/History/Undo/Edit.antt =====
-- What saving, undoing and redoing give back (internal/history/undo.go).
use readline.Base.{
  zero, suc, length-append, ℕ, ◌-◌, ◌≤◌, ◌≡◌, ◌≢◌, ◌⊎◌, refl, inl, inr, true, false, List, [], ◌∷◌,
  ◌++◌, arith, some, sym, ◌∙◌, ap, length, take, eqb, eqb→eq, Bool-cases,
}
use readline.Base.Int.{ℤ, pos, ltb_ℤ, ◌-ℤ◌, int_laws}
use readline.Core.Line.{Line}
use readline.Core.Cursor.{Cursor, new_cursor, check_append, set_pos}
use readline.Core.Cursor.Checks.{check_append-line}
use readline.Core.Cursor.Command.{check_command_lem}
use readline.History.Undo.{
  UndoItem, LineHistory, Sources, get_line_history, put_line_history, last, is_saved, set_last_pos,
  kept_items, new_item, save_line,
}

last-snoc : (front : List UndoItem) (x : UndoItem) → last (front ++ x ∷ []) ≡ some x
unfolding last
last-snoc [] x = refl
last-snoc (y ∷ []) x = refl
last-snoc (y ∷ (z ∷ front)) x = last-snoc (z ∷ front) x

pub is_saved-snoc :
    (front : List UndoItem) (x : UndoItem) (line : Line)
    → is_saved (front ++ x ∷ []) line ≡ eqb x.line line
unfolding is_saved
is_saved-snoc front x line = rw (last-snoc front x, is_saved) refl

set_last_pos-snoc :
    (front : List UndoItem) (x : UndoItem) (at : ℤ)
    → set_last_pos (front ++ x ∷ []) at ≡ front ++ record { line = x.line; pos = at } ∷ []
unfolding set_last_pos
set_last_pos-snoc [] x at = refl
set_last_pos-snoc (y ∷ []) x at = refl
set_last_pos-snoc (y ∷ (z ∷ front)) x at = ap (y ∷◌) (set_last_pos-snoc (z ∷ front) x at)

is_saved-nil : (items : List UndoItem) (line : Line) → items ≡ [] → is_saved items line ≢ true
unfolding is_saved last
is_saved-nil [] line e h = cc
is_saved-nil (x ∷ xs) line e h = cc

snoc-cases :
    (items : List UndoItem)
    → (items ≡ []) ⊎ ((front : List UndoItem) × (x : UndoItem) × (items ≡ front ++ x ∷ []))
snoc-cases [] = inl refl
snoc-cases (x ∷ xs) = elim (snoc-cases xs) [
  | inl e ↦ inr ([], x, ap (x ∷◌) e)
  | inr (front, y, e) ↦ inr (x ∷ front, y, ap (x ∷◌) e)
]

pub new_item_lem :
    (c : Cursor) → (item : UndoItem) × (new_item c ≡ some item) × (item.line ≡ c.line)
unfolding new_item
new_item_lem c =
    let (d, e, same, v, done) = check_command_lem (set_pos (new_cursor c.line) c.pos) in
    (record { line = c.line; pos = (check_append d).pos }, rw e refl, refl)

-- The states of the current line end with one of the current line.
abbrev pub EndsWith : Line → LineHistory → Type 0
EndsWith line lh =
    (front : List UndoItem) × (x : UndoItem) × (lh.items ≡ front ++ x ∷ []) × (x.line ≡ line)

take-append_le : (n : ℕ) (xs ys : List UndoItem) → n ≤ length xs → take n (xs ++ ys) ≡ take n xs
take-append_le zero xs ys h = refl
take-append_le (suc n) [] ys h = absurd (omega arith)
take-append_le (suc n) (x ∷ xs) ys h = ap (x ∷◌) (take-append_le n xs ys (omega arith))

kept_items_lem :
    (spare : List UndoItem → List UndoItem) (lh : LineHistory) (p : ℕ)
    → lh.pos ≡ pos p
    → p ≤ length lh.items
    → kept_items spare lh ≡ some (take (length lh.items - p) lh.items)
unfolding kept_items
kept_items_lem spare lh p e le =
    let held = lh.items ++ spare lh.items in
    let n = length lh.items in
    let within : ltb_ℤ (pos n) lh.pos ≡ false = rw e (ground (arith, le)) in
    let size : pos n -ℤ pos p ≡ pos (n - p) = grind (int_laws, le) in
    let fits : ltb_ℤ (pos (length held)) (pos (n - p)) ≡ false =
      ground (arith, length-append lh.items (spare lh.items)) in
    rw (kept_items, within, e, size, fits)
      (ap some (take-append_le (n - p) lh.items (spare lh.items) (omega arith)))

save_line-saved :
    (h : Sources)
    → is_saved (get_line_history h).items h.cursor.line ≡ true
    → save_line h
      ≡ some (
          put_line_history
            (record h { cursor = check_append h.cursor })
            (record (get_line_history h) {
              items = set_last_pos (get_line_history h).items (check_append h.cursor).pos;
            }))
unfolding save_line check_append
save_line-saved h e = rw e refl

pub save_line-new :
    (h : Sources) (p : ℕ) (item : UndoItem)
    → is_saved (get_line_history h).items (check_append h.cursor).line ≡ false
    → (get_line_history h).pos ≡ pos p
    → p ≤ length (get_line_history h).items
    → new_item (check_append h.cursor) ≡ some item
    → save_line h
      ≡ some (
          put_line_history
            (record h { cursor = check_append h.cursor })
            (record {
              items =
                  take (length (get_line_history h).items - p) (get_line_history h).items
                  ++ item ∷ [];
              pos = pos p;
            }))
unfolding save_line
save_line-new h p item e at le made =
    rw (e, kept_items_lem h.spare (get_line_history h) p at le, made) (ground arith)

set_last_pos-EndsWith :
    (lh : LineHistory) (line : Line) (at : ℤ)
    → is_saved lh.items line ≡ true
    → EndsWith line (record lh { items = set_last_pos lh.items at })
set_last_pos-EndsWith lh line at same = elim (snoc-cases lh.items) [
  | inl e ↦ absurd (is_saved-nil lh.items line e same)
  | inr (front, x, e) ↦ (
    front,
    record { line = x.line; pos = at },
    ap (λ items. set_last_pos items at) e ∙ set_last_pos-snoc front x at,
    eqb→eq x.line line
        (sym (is_saved-snoc front x line) ∙ ap (λ items. is_saved items line) (sym e) ∙ same),
  )
]

pub save_line-EndsWith :
    (h : Sources) (p : ℕ)
    → (get_line_history h).pos ≡ pos p
    → p ≤ length (get_line_history h).items
    → (lh : LineHistory) × (save_line h
        ≡ some (put_line_history (record h { cursor = check_append h.cursor }) lh))
      × (lh.pos ≡ pos p)
      × EndsWith h.cursor.line lh
save_line-EndsWith h p at le =
    elim (Bool-cases (is_saved (get_line_history h).items h.cursor.line)) [
      | inr fresh ↦
          let (item, made, line) = new_item_lem (check_append h.cursor) in
          (
            record {
              items =
                  take (length (get_line_history h).items - p) (get_line_history h).items
                  ++ item ∷ [];
              pos = pos p;
            },
            save_line-new h p item (rw check_append-line fresh) at le made,
            refl,
            (
              take (length (get_line_history h).items - p) (get_line_history h).items,
              item,
              refl,
              line ∙ check_append-line h.cursor,
            ),
          )
      | inl same ↦ (
        record (get_line_history h) {
          items = set_last_pos (get_line_history h).items (check_append h.cursor).pos;
        },
        save_line-saved h same,
        at,
        set_last_pos-EndsWith (get_line_history h) h.cursor.line (check_append h.cursor).pos same,
      )
    ]
