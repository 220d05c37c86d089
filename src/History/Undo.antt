-- ===== src/History/Undo.antt =====
-- The undo states of a line (internal/history/undo.go). The line is that of the cursor, since both
-- point to one. A missing entry of the maps of states is an empty `LineHistory`, as the code makes
-- one where it finds none. `current` is the answer of `Current`, with the name of the source; no
-- operation here changes it. `spare` is the spare capacity that the run-time has behind the states in
-- their slice: it is a parameter, which no operation here changes, and says what a slice beyond the
-- length gives. `none` is a panic, for an index or a slice out of range.
pub mod Walk
pub mod Edit
pub mod Saving
pub mod Undoing
pub mod Redoing
use readline.Base.{
  ℕ, zero, suc, ◌+◌, ◌-◌, Bool, true, false, not, ◌&&◌, Option, none, some, List, [], ◌∷◌, ◌++◌,
  ◌==◌, if◌then◌else◌, is_empty, eqb, length, get_elem?, take, set, ◌>>=◌,
}
use readline.Base.Int.{ℤ, pos, pos_part, neg_part, minus_one, ltb_ℤ, eqb_ℤ, ◌+ℤ◌, ◌-ℤ◌}
use readline.Core.Line.{Line}
use readline.Core.Cursor.{Cursor, new_cursor, check_append, check_command, set_pos}

pub record UndoItem : Type 0 where
  pub line : Line
  pub pos : ℤ

pub record LineHistory : Type 0 where
  pub pos : ℤ
  pub items : List UndoItem

abbrev pub empty_history : LineHistory
empty_history = record { pos = pos 0; items = [] }

-- A history source: its name and its lines.
pub record Source : Type 0 where
  pub name : Line
  pub entries : List Line

pub record Sources : Type 0 where
  pub cursor : Cursor
  pub current : Option Source
  pub hpos : ℤ
  pub skip : Bool
  pub undoing : Bool
  pub lines : Line → ℤ → LineHistory
  pub spare : List UndoItem → List UndoItem

-- The position of the current line in the history, in `getLineHistory`.
unfoldable pub line_key : Sources → Source → ℤ
line_key h source =
    if ltb_ℤ minus_one h.hpos then pos (length source.entries) -ℤ h.hpos else minus_one

unfoldable pub get_line_history : Sources → LineHistory
unfolding line_key
get_line_history h = elim h.current [
  | none ↦ empty_history
  | some source ↦ h.lines source.name (line_key h source)
]

-- A write through the pointer that `getLineHistory` returns. With no source it points to nothing
-- that is kept.
unfoldable pub store : (Line → ℤ → LineHistory) → Line → ℤ → LineHistory → Line → ℤ → LineHistory
store lines name key lh name' key' =
    if eqb name name' && eqb_ℤ key key' then lh else lines name' key'

unfoldable pub put_line_history : Sources → LineHistory → Sources
unfolding line_key store
put_line_history h lh = elim h.current [
  | none ↦ h
  | some source ↦ record h { lines = store h.lines source.name (line_key h source) lh }
]

unfoldable pub reset : Sources → Sources
reset h =
    let h' = record h { skip = false; undoing = false } in
    if h.undoing then h' else put_line_history h' (record (get_line_history h) { pos = pos 0 })

-- The last of some items.
unfoldable pub last : List UndoItem → Option UndoItem
last [] = none
last (x ∷ []) = some x
last (x ∷ (y ∷ r)) = last (y ∷ r)

-- Is the line that of the last saved state?
unfoldable pub is_saved : List UndoItem → Line → Bool
unfolding last
is_saved items line = elim (last items) [ none ↦ false | some item ↦ eqb item.line line ]

-- The write of the cursor position to the last item.
unfoldable pub set_last_pos : List UndoItem → ℤ → List UndoItem
set_last_pos [] at = []
set_last_pos (x ∷ []) at = record { line = x.line; pos = at } ∷ []
set_last_pos (x ∷ (y ∷ r)) at = x ∷ set_last_pos (y ∷ r) at

-- The states that `Save` keeps: those from the undo position on are dropped. With a position below 0
-- the slice goes beyond the length, into the spare capacity, and panics if it goes beyond that too.
unfoldable pub kept_items : (List UndoItem → List UndoItem) → LineHistory → Option (List UndoItem)
kept_items spare lh =
    let count = pos (length lh.items) in
    let undone = if ltb_ℤ count lh.pos then count else lh.pos in
    let held = lh.items ++ spare lh.items in
    let size = count -ℤ undone in
    if ltb_ℤ (pos (length held)) size then none else some (take (pos_part size) held)

-- The new state, with the position that `CheckCommand` gives.
unfoldable pub new_item : Cursor → Option UndoItem
new_item c = do
  c' ← check_command (set_pos (new_cursor c.line) c.pos)
  some (record { line = c.line; pos = (check_append c').pos })

unfoldable pub save_line : Sources → Option Sources
save_line h =
    let lh = get_line_history h in
    let c = check_append h.cursor in
    let h' = record h { cursor = c } in
    if is_saved lh.items c.line
    then some (put_line_history h' (record lh { items = set_last_pos lh.items c.pos }))
    else do
      kept ← kept_items h.spare lh
      item ← new_item c
      some (
          put_line_history h' (record {
            items = kept ++ item ∷ [];
            pos = if ltb_ℤ (pos (length lh.items)) lh.pos then pos (length lh.items) else lh.pos;
          }))

unfoldable pub save : Sources → Option Sources
save h = if h.skip then some (reset h) else do h' ← save_line h; some (reset h')

-- `h.line.Set(…)` and `h.cursor.Set(…)` for a saved state.
unfoldable pub restore : Sources → UndoItem → Sources
unfolding set_pos
restore h item = record h { cursor = set_pos (record h.cursor { line = item.line }) item.pos }

-- The loop of `Undo`: the position that it ends at, and the state found, if any. `none` is a panic,
-- or means that the rounds ran out.
unfoldable pub undo_loop : List UndoItem → Line → ℤ → ℕ → Option (ℤ × Option UndoItem)
undo_loop items line at zero = none
undo_loop items line at (suc rounds) =
    let at' = at +ℤ pos 1 in
    let count = pos (length items) in
    let later = undo_loop items line at' rounds in
    if ltb_ℤ count at'
    then some (count, none)
    else if ltb_ℤ at' (pos 1)
    then none
    else elim (get_elem? items (length items - pos_part at')) [
      | none ↦ none
      | some item ↦ if eqb item.line line then later else some (at', some item)
    ]

unfoldable pub undo : Sources → Option Sources
undo h =
    let h' = record h { skip = true; undoing = true } in
    let lh = get_line_history h in
    if is_empty lh.items then some h' else do
      (at, found) ← undo_loop lh.items h.cursor.line lh.pos (length lh.items + neg_part lh.pos + 2)
      let h'' = put_line_history h' (record lh { pos = at })
      some (elim found [ none ↦ h'' | some item ↦ restore h'' item ])

unfoldable pub revert : Sources → Sources
revert h =
    let lh = get_line_history h in
    elim lh.items [
      | [] ↦ h
      | item ∷ rest ↦ reset (put_line_history (restore h item) (record lh { items = [] }))
    ]

unfoldable pub redo : Sources → Option Sources
redo h =
    let h' = record h { skip = true; undoing = true } in
    let lh = get_line_history h in
    let at = lh.pos -ℤ pos 1 in
    let h'' = put_line_history h' (record lh { pos = at }) in
    if is_empty lh.items
    then some h'
    else if ltb_ℤ at (pos 1)
    then some h''
    else if ltb_ℤ (pos (length lh.items)) at
    then none
    else do item ← get_elem? lh.items (length lh.items - pos_part at); some (restore h'' item)
