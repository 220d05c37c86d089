-- ===== src/Shell/Killing.antt =====
-- The commands of emacs.go that kill and yank.
use readline.Base.{true, not, Option, some, if◌then◌else◌, is_empty, ◌>>=◌}
use readline.Base.Int.{ℤ, pos, ◌+ℤ◌, ◌-ℤ◌}
use readline.Core.Line.{Line, len, cut}
use readline.Core.Tokens.{tokenize, tokenize_space, forward, backward}
use readline.Core.Cursor.{
  move, set_pos, check_append, insert_at, beginning_of_line, end_of_line_append, to_first_non_space,
}
use readline.Core.Iterations.{reset}
use readline.Core.Selection.{Selection, mark, mark_range, cut_selection, selected}
use readline.Core.Selection
use readline.Editor.Buffers.{write, active_content, pop}
use readline.Shell.{
  Command, Shell, Unicode, line, cursor, with_cursor, with_buffer, checked, save_history, skip_save,
  times,
}

unfoldable pub no_count : Shell → Shell
no_count rl = record rl { iterations = reset rl.iterations }

unfoldable pub yank_once : Line → Command
yank_once buf rl = some (with_cursor rl (insert_at (cursor rl) buf))

unfoldable pub yank : Command
yank rl =
    let (b, buf) = active_content rl.buffers in times (yank_once buf) (record rl { buffers = b })

unfoldable pub yank_pop_once : Command
yank_pop_once rl = do
  (b, buf) ← pop rl.buffers
  some (with_cursor (record rl { buffers = b }) (insert_at (cursor rl) buf))

unfoldable pub yank_pop : Command
yank_pop rl = times yank_pop_once rl

module _ (u : Unicode) where
  -- `rl.Buffers.Write(…)`
  unfoldable pub store : Shell → Line → Shell
  store rl text = record rl { buffers = write u.is_letter u.to_lower rl.buffers text }

  -- `rl.Buffers.Write([]rune(rl.selection.Cut())...)`
  unfoldable pub kill_selection : Command
  kill_selection rl = do
    (s, text) ← cut_selection rl.selection
    some (store (record rl { selection = s }) text)

  -- `rl.Buffers.Write([]rune(rl.selection.Text())...)`, then the reset of the selection.
  unfoldable pub copy_selection : Command
  copy_selection rl = do
    (s, text) ← selected rl.selection
    some (store (record rl { selection = Selection.reset s }) text)

  -- `rl.selection.MarkRange(…)` with the positions in the line, then the kill.
  unfoldable pub kill_range : Shell → ℤ → ℤ → Option Shell
  kill_range rl b e = kill_selection (record rl { selection = mark_range rl.selection b e })

  unfoldable pub kill_to_end : Command
  kill_to_end rl = do
    let (rl', at) = checked rl
    end ← end_of_line_append (cursor rl')
    killed ← kill_range (with_cursor rl' (check_append end)) at (check_append end).pos
    some (with_cursor killed (set_pos (cursor killed) at))

  unfoldable pub kill_line : Command
  kill_line rl = do
    saved ← save_history (no_count rl)
    if is_empty (line saved) then some saved else kill_to_end saved

  unfoldable pub kill_to_beginning : Command
  kill_to_beginning rl = do
    let (rl', at) = checked rl
    begin ← beginning_of_line (cursor rl')
    kill_range (with_cursor rl' (check_append begin)) (check_append begin).pos at

  unfoldable pub backward_kill_line : Command
  backward_kill_line rl = do
    saved ← save_history (no_count rl)
    if is_empty (line saved) then some saved else kill_to_beginning saved

  unfoldable pub cut_all : Command
  cut_all rl = do
    l ← cut (line rl) (pos 0) (len (line rl))
    some (with_buffer (store rl (line rl)) l)

  -- The body of `killWholeLine` and of `killBuffer`.
  unfoldable pub kill_all : Command
  kill_all rl = do
    saved ← save_history rl
    if is_empty (line saved) then some saved else cut_all saved

  unfoldable pub kill_whole_line : Command
  kill_whole_line rl = kill_all rl

  unfoldable pub kill_buffer : Command
  kill_buffer rl = kill_all rl

  unfoldable pub kill_word : Command
  kill_word rl = do
    saved ← save_history rl
    let (rl', begin) = checked saved
    c ← to_first_non_space (cursor rl') true
    let (there, at) = checked (with_cursor rl' c)
    adjust ← forward u.rune_len (line there) (tokenize_space u.rune_len (line there) at)
    let end = check_append (move (cursor there) (adjust -ℤ pos 1))
    killed ← kill_range (with_cursor there end) begin end.pos
    some (with_cursor killed (set_pos (cursor killed) begin))

  -- A mark at the cursor, which goes back to the start of the word.
  unfoldable pub mark_back : Command
  mark_back rl = do
    let (rl', at) = checked rl
    let rl'' = record rl' { selection = mark rl'.selection at }
    adjust ← backward u.rune_len (tokenize u.rune_len u.is_punct (line rl'') at)
    some (with_cursor rl'' (move (cursor rl'') adjust))

  unfoldable pub backward_kill_word : Command
  backward_kill_word rl = do
    saved ← save_history rl
    marked ← mark_back (skip_save saved)
    kill_selection marked

  unfoldable pub kill_region : Command
  kill_region rl = do
    saved ← save_history rl
    if not saved.selection.active then some saved else kill_selection saved

  unfoldable pub copy_region_as_kill : Command
  copy_region_as_kill rl =
      let rl' = skip_save rl in if not rl'.selection.active then some rl' else copy_selection rl'

  unfoldable pub copy_backward_word : Command
  copy_backward_word rl = do
    saved ← save_history rl
    marked ← mark_back saved
    copy_selection marked

  unfoldable pub copy_forward_word : Command
  copy_forward_word rl = do
    saved ← save_history rl
    let (rl', at) = checked saved
    let marked = record rl' { selection = mark rl'.selection at }
    adjust ← forward u.rune_len (line marked) (tokenize u.rune_len u.is_punct (line marked) at)
    copy_selection (with_cursor marked (move (cursor marked) (adjust +ℤ pos 1)))
