-- ===== src/Shell/Recalling.antt =====
-- The commands of history.go that move through the history, and those that yank its words.
use readline.Base.{
  ℕ, ◌-◌, Bool, true, false, not, ◌||◌, Option, none, some, List, [], ◌∷◌, ◌++◌, ◌==◌,
  if◌then◌else◌, length, get_elem?, is_empty, ◌>>=◌,
}
use readline.Base.Int.{ℤ, pos, pos_part, minus_one, ltb_ℤ, ◌+ℤ◌, ◌-ℤ◌}
use readline.Core.Line.{Line, len, insert}
use readline.Core.Search.{lines}
use readline.Core.Cursor.{set_pos, inc, dec, move, beginning_of_line, to_first_non_space}
use readline.Core.Cursor.LineMove.{line_pos, line_move, at_beginning_of_line, at_end_of_line}
use readline.History.Names.{current}
use readline.History.Sources.{walk, get_last, infer_next}
use readline.Strutil.Split.{SplitError, split}
use readline.Core.Tokens.{bytes}
use readline.Shell.{
  Command, Shell, Unicode, line, cursor, with_cursor, checked, save_history, skip_save, on_history,
  count,
}
use readline.Shell.Moving.{beginning_of_line_command, end_of_line_command}

-- `rl.History.Walk(…)`
unfoldable pub walk_by : ℤ → Command
walk_by step rl = on_history rl (λ h. walk h step)

unfoldable pub down_history : Command
down_history rl = do saved ← save_history rl; walk_by minus_one saved

unfoldable pub up_history : Command
up_history rl = do saved ← save_history rl; walk_by (pos 1) saved

-- A walk by a step that the length of the current source gives.
unfoldable pub walk_source : (ℕ → ℤ) → Command
walk_source step rl = do
  found ← current rl.history.sources
  elim found [ none ↦ some rl | some source ↦ walk_by (step (length source.entries)) rl ]

unfoldable pub beginning_of_history : Command
beginning_of_history rl = walk_source (λ n. pos n) (skip_save rl)

unfoldable pub end_of_history : Command
end_of_history rl = walk_source (λ n. (pos 0 -ℤ pos n) +ℤ pos 1) rl

-- `LinePos`, which corrects the cursor.
unfoldable pub line_of_cursor : Shell → Shell × ℤ
line_of_cursor rl = let (c, here) = line_pos (cursor rl) in (with_cursor rl c, pos here)

unfoldable pub down_line_or_history : Command
down_line_or_history rl = do
  let (counted, times) = count rl
  let (rl', here) = line_of_cursor counted
  let below = pos (lines (line rl')) -ℤ here
  c ← if ltb_ℤ (pos 0) below then line_move (cursor rl') times else some (cursor rl')
  let left = if ltb_ℤ (pos 0) below then times -ℤ below else times
  if ltb_ℤ (pos 0) left
      then walk_by (pos 0 -ℤ left) (with_cursor rl' c)
      else some (with_cursor rl' c)

unfoldable pub vi_first_print : Command
vi_first_print rl = do
  c ← beginning_of_line (cursor rl)
  d ← to_first_non_space c true
  some (with_cursor rl d)

unfoldable pub vi_down_line_or_history : Command
vi_down_line_or_history rl = do rl' ← down_line_or_history rl; vi_first_print rl'

unfoldable pub up_line_or_history : Command
up_line_or_history rl = do
  let (counted, times) = count rl
  let (rl', here) = line_of_cursor counted
  c ← if ltb_ℤ (pos 0) here then line_move (cursor rl') (pos 0 -ℤ times) else some (cursor rl')
  let left = if ltb_ℤ (pos 0) here then times -ℤ here else times
  if ltb_ℤ (pos 0) left then walk_by left (with_cursor rl' c) else some (with_cursor rl' c)

unfoldable pub infer_next_history : (Line → Line → Bool) → Command
infer_next_history matches rl = on_history (skip_save rl) (infer_next matches)

unfoldable pub beginning_of_buffer_or_history : Command
beginning_of_buffer_or_history rl =
    let (rl', at) = checked rl in
    if ltb_ℤ (pos 0) at
    then some (with_cursor (skip_save rl') (set_pos (cursor rl') (pos 0)))
    else do saved ← save_history rl'; beginning_of_history saved

unfoldable pub end_of_buffer_or_history : Command
end_of_buffer_or_history rl =
    let (rl', at) = checked rl in
    if ltb_ℤ at (len (line rl') -ℤ pos 1)
    then some (with_cursor (skip_save rl') (set_pos (cursor rl') (len (line rl'))))
    else do saved ← save_history rl'; end_of_history saved

unfoldable pub beginning_of_line_hist : Command
beginning_of_line_hist rl =
    let (rl', at) = checked rl in
    let c = cursor rl' in
    if ltb_ℤ (pos 0) at
    then beginning_of_line_command
        (with_cursor (skip_save rl') (if at_beginning_of_line c then dec c else c))
    else up_history rl'

unfoldable pub end_of_line_hist : Command
end_of_line_hist rl =
    let (rl', at) = checked (skip_save rl) in
    let c = cursor rl' in
    if ltb_ℤ at (len (line rl') -ℤ pos 1)
    then end_of_line_command (with_cursor rl' (if at_end_of_line c then inc c else c))
    else down_history rl'

unfoldable pub autosuggest_toggle : Shell → Shell
autosuggest_toggle rl = record (skip_save rl) { autosuggest = not rl.autosuggest }

-- `strings.ContainsAny` and `strings.Contains` with one byte or more.
unfoldable pub has_byte : (ℕ → Bool) → Line → Bool
has_byte test [] = false
has_byte test (b ∷ rest) = test b || has_byte test rest

-- The quotes around a word with blanks.
unfoldable pub quoted_word : Line → Line
quoted_word word =
    if not (has_byte (λ b. (b == b' ') || (b == b'\t')) word)
    then word
    else if has_byte (λ b. b == b'"') word
    then b'\'' ∷ word ++ b'\'' ∷ []
    else b'"' ∷ word ++ b'"' ∷ []

unfoldable pub words_of : Option SplitError → List Line → List Line
words_of none words = words
words_of (some err) words = []

-- The words of the last line; none for a line that is empty or cannot be split.
unfoldable pub last_words : Shell → Option (List Line)
last_words rl = do last ← get_last rl.history; (words, err) ← split last; some (words_of err words)

-- An index into a slice of words, which may be out of range.
unfoldable pub word_at : List Line → ℤ → Option Line
word_at words i = if ltb_ℤ i (pos 0) then none else get_elem? words (pos_part i)

module _ (u : Unicode) where
  unfoldable pub yank_word : Shell → ℤ → Line → Shell
  yank_word rl at word =
      with_cursor rl (
        move (record (cursor rl) { line = insert (line rl) at word }) (pos (bytes u.rune_len word)))

  unfoldable pub yank_last_arg : Command
  yank_last_arg rl = do
    words ← last_words rl
    elim (get_elem? words (length words - 1)) [
      | none ↦ some rl
      | some word ↦ some (yank_word (checked rl).0 (checked rl).1 (quoted_word word))
    ]

  unfoldable pub yank_nth_arg : Command
  yank_nth_arg rl = do
    words ← last_words rl
    let (rl', nth) = count rl
    if is_empty words then some rl else if ltb_ℤ (pos (length words)) nth then some rl' else do
      word ← word_at words (nth -ℤ pos 1)
      some (yank_word rl' (len (line rl')) (quoted_word word))
