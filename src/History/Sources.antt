-- ===== src/History/Sources.antt =====
-- The moves between the lines of the history (internal/history/sources.go). The sources are in memory,
-- so that no read of them gives an error. The undo states are those of History/Undo.antt: `walking` is
-- the state that they use, and its `current` is set by each operation here to the answer of `Current`.
-- Two options that the code reads are the fields `preserve_point` and `revert_all`. The match of a quoted
-- regular expression is a parameter. The errors of an accepted line are numbers. `none` is a panic.
pub mod Walking
pub mod Inferring
use readline.Base.{
  ℕ, zero, suc, ◌+◌, ◌-◌, Bool, true, false, not, ◌&&◌, ◌||◌, Option, none, some, List, [], ◌∷◌,
  ◌++◌, ◌==◌, eqb, ltb, length, take, drop, get_elem?, is_empty, if◌then◌else◌, map, ◌>>=◌,
}
use readline.Base.Int.{ℤ, pos, pos_part, neg_part, minus_one, ltb_ℤ, eqb_ℤ, ◌+ℤ◌, ◌-ℤ◌}
use readline.Core.Line.{Line, len}
use readline.Core.Cursor.{Cursor, set_pos, get_pos}
use readline.History.Undo.{
  Source, Sources, UndoItem, LineHistory, empty_history, get_line_history, last, save, restore,
}
use readline.History.Names.{SourceList, current}
use readline.History.Match.{match, get_line}

pub record History : Type 0 where
  pub walking : Sources
  pub sources : SourceList
  pub max_entries : ℤ
  pub cpos : ℤ
  pub infer : Bool
  pub accepted : Bool
  pub accept_hold : Bool
  pub accept_line : Line
  pub accept_err : Option ℕ
  pub preserve_point : Bool
  pub revert_all : Bool

-- The lines of the current source, if there is one, and the state with it.
unfoldable pub with_current : History → Option (Option Source × History)
unfolding current
with_current h = do
  found ← current h.sources
  some (found, record h { walking = record h.walking { current = found } })

-- `setLineCursorMatch`
unfoldable pub set_line_cursor_match : History → Line → History
unfolding get_pos set_pos
set_line_cursor_match h next =
    let w = h.walking in
    let keeps = eqb_ℤ h.cpos minus_one && ltb_ℤ (pos 0) (len w.cursor.line) in
    let (c, at) = get_pos w.cursor in
    let c' = if keeps then c else w.cursor in
    let at' = if keeps && not (ltb_ℤ (len w.cursor.line) at) then at else h.cpos in
    let end = len next in
    let target =
      if h.preserve_point && (ltb_ℤ at' end && not (eqb_ℤ at' minus_one)) then at' else end in
    record h {
      walking = record w { cursor = set_pos (record c' { line = next }) target };
      cpos = at';
    }

-- `restoreLineBuffer`
unfoldable pub restore_line_buffer : Sources → Sources
restore_line_buffer w =
    let w' = record w { hpos = minus_one } in
    elim w.current [
      | none ↦ w'
      | some source ↦ elim (last (w.lines source.name minus_one).items) [
        | none ↦ w'
        | some item ↦ restore w' item
      ]
    ]

-- The start of a walk that leaves the line that is edited.
unfoldable pub leave_line : History → ℤ → Option History
leave_line h step =
    if not (eqb_ℤ h.walking.hpos minus_one && ltb_ℤ (pos 0) step) then some h else do
      saved ← save (record h.walking { skip = false })
      some (record h { walking = record saved { hpos = pos 0 }; cpos = minus_one })

-- The line at the position that the walk has reached.
unfoldable pub show_line : History → List Line → Option History
show_line h entries = elim (last (get_line_history h.walking).items) [
  | some item ↦ some (set_line_cursor_match h item.line)
  | none ↦ elim (get_line entries (pos (length entries) -ℤ h.walking.hpos)) [
    | none ↦ none
    | some line ↦ some (set_line_cursor_match h line)
  ]
]

unfoldable pub arrive : History → List Line → ℤ → Option History
unfolding show_line
arrive h entries at =
    let to = λ (at' : ℤ). record h { walking = record h.walking { hpos = at' } } in
    if ltb_ℤ at minus_one
    then some (to minus_one)
    else if eqb_ℤ at (pos 0)
    then some (record h { walking = restore_line_buffer (record h.walking { hpos = at }) })
    else show_line (to (if ltb_ℤ (pos (length entries)) at then pos (length entries) else at))
        entries

unfoldable pub walk_in : History → List Line → ℤ → Option History
walk_in h entries step =
    if eqb_ℤ h.walking.hpos (pos (length entries)) && eqb_ℤ step (pos 1)
    then some h
    else do h' ← leave_line h step; arrive h' entries (h'.walking.hpos +ℤ step)

-- `Walk`
unfoldable pub walk : History → ℤ → Option History
unfolding walk_in
walk h step = do
  (found, h') ← with_current h
  elim found [
    | none ↦ some h'
    | some source ↦ if is_empty source.entries then some h' else walk_in h' source.entries step
  ]

-- `Fetch`
unfoldable pub fetch : History → ℤ → Option History
fetch h at = do
  (found, h') ← with_current h
  elim found as (λ _. Option History) [
    | none ↦ some h'
    | some source ↦
        if ltb_ℤ at (pos 0) || not (ltb_ℤ at (pos (length source.entries)))
        then some h'
        else elim (get_line source.entries at) [
          | none ↦ none
          | some line ↦ some (set_line_cursor_match h' line)
        ]
  ]

-- `GetLast`
unfoldable pub get_last : History → Option Line
get_last h = do
  (found, h') ← with_current h
  elim found as (λ _. Option Line) [
    | none ↦ some []
    | some source ↦
        if is_empty source.entries
        then some []
        else get_line source.entries (pos (length source.entries) -ℤ pos 1)
  ]

-- `h.line.Set(…)`, then `h.cursor.Set(h.line.Len())`.
unfoldable pub set_line : History → Line → History
unfolding set_pos
set_line h line = record h {
  walking = record h.walking {
    cursor = set_pos (record h.walking.cursor { line = line }) (len line);
  };
}

module _ (matches : Line → Line → Bool) where
  -- The line behind the match in a source, if there is one.
  unfoldable pub infer_from : History → Source → Option History
  unfolding set_line
  infer_from h source =
      elim (match matches source.entries h.walking.hpos h.walking.cursor.line none false false
        false) [
          | none ↦ none
          | some none ↦ some h
          | some (some (line, at)) ↦
              let end = pos (length source.entries) in
              if not (ltb_ℤ ((end -ℤ at) +ℤ pos 1) end)
              then some h
              else elim (get_line source.entries (at +ℤ pos 1)) [
                | none ↦ none
                | some next ↦ some (set_line h next)
              ]
        ]

  -- `InferNext`
  unfoldable pub infer_next : History → Option History
  infer_next h = do
    (found, h') ← with_current h
    elim found [ none ↦ some h' | some source ↦ infer_from h' source ]

  -- `Suggest`, for a line that is given.
  unfoldable pub suggest : History → Line → Option Line
  suggest h line = if is_empty line then some line else do
    (found, h') ← with_current h
    elim found as (λ _. Option Line) [
      | none ↦ some line
      | some source ↦
          elim (match matches source.entries h'.walking.hpos line none false false false) [
            | none ↦ none
            | some none ↦ some line
            | some (some (suggested, at)) ↦ some suggested
          ]
    ]

  -- `Init`: what it does, and then the deferred reset.
  unfoldable pub init_done : History → History
  init_done h = record h { accepted = false; accept_line = []; accept_err = none; cpos = minus_one }

  unfoldable pub forget_line : Sources → Sources
  forget_line w = elim w.current [
    | none ↦ w
    | some source ↦ record w {
      lines = λ name key.
          if eqb name source.name && eqb_ℤ key minus_one then empty_history else w.lines name key;
    }
  ]

  unfoldable pub init_fresh : History → Option History
  unfolding init_done forget_line
  init_fresh h = do
    (found, h') ← with_current h
    some (init_done (record h' { walking = forget_line h'.walking }))

  unfoldable pub init : History → Option History
  unfolding set_line init_done init_fresh
  init h =
      let hpos = h.walking.hpos in
      let fresh = record h { walking = record h.walking { hpos = minus_one } } in
      if h.accept_hold
      then some (init_done (set_line fresh h.accept_line))
      else if not h.infer
      then init_fresh fresh
      else do
        moved ←
            if eqb_ℤ hpos minus_one
            then some h
            else if eqb_ℤ hpos (pos 0)
            then infer_next h
            else walk h minus_one
        some (init_done (record moved { infer = false }))
