-- ===== src/History/Acceptance.antt =====
-- The acceptance of a line, which is then written to the sources (internal/history/sources.go).
-- `strings.TrimSpace` is a parameter.
pub mod Writing
use readline.Base.{
  ℕ, ◌-◌, Bool, true, false, not, ◌&&◌, ◌||◌, Option, none, some, List, [], ◌∷◌, ◌++◌, eqb, length,
  get_elem?, is_empty, if◌then◌else◌,
}
use readline.Base.Int.{ℤ, pos, ltb_ℤ, eqb_ℤ}
use readline.Core.Line.{Line}
use readline.History.Undo.{Source, Sources, LineHistory, empty_history}
use readline.History.Names.{SourceList}
use readline.History.Sources.{History}

-- Is the line left out, for the number of lines that the source has?
unfoldable pub is_held : ℤ → List Line → Bool
is_held max entries = eqb_ℤ max (pos 0) || not (ltb_ℤ max (pos (length entries)))

module _ (trim : Line → Line) where
  unfoldable pub is_repeated : Line → List Line → Bool
  is_repeated line entries = elim (get_elem? entries (length entries - 1)) [
    | none ↦ false
    | some entry ↦ not (is_empty entry) && eqb (trim entry) (trim line)
  ]

  -- The loop of `Write`, in the order of the list: a repeated line ends it.
  unfoldable pub write_each : ℤ → Line → List Source → List Source
  unfolding is_held is_repeated
  write_each max line [] = []
  write_each max line (source ∷ rest) =
      let later = write_each max line rest in
      if is_held max source.entries
      then source ∷ later
      else if is_repeated line source.entries
      then source ∷ rest
      else record source { entries = source.entries ++ line ∷ [] } ∷ later

  -- `Write`
  unfoldable pub write : History → Bool → History
  unfolding write_each
  write h true = record h { infer = true }
  write h false =
      let line = h.walking.cursor.line in
      if is_empty (trim line) then h else record h {
        sources = record h.sources { list = write_each h.max_entries line h.sources.list };
      }

  -- `Accept`
  unfoldable pub accept : History → Bool → Bool → Option ℕ → History
  unfolding write
  accept h hold infer err =
      let h' = record h {
        accepted = true;
        accept_hold = hold;
        accept_line = h.walking.cursor.line;
        accept_err = err;
      } in
      elim err [ none ↦ write h' infer | some e ↦ h' ]

-- `LineAccepted`
unfoldable pub line_accepted : History → History × Bool × Line × Option ℕ
line_accepted h =
    if not h.accepted
    then (h, false, [], none)
    else let h' =
        if h.revert_all
        then record h { walking = record h.walking { lines = λ name key. empty_history } }
        else h in
      (h', true, h.accept_line, h.accept_err)
