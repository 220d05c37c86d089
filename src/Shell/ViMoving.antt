-- ===== src/Shell/ViMoving.antt =====
-- The modes and the movements of vim.go.
use readline.Base.{
  ℕ, zero, suc, Bool, true, false, not, ◌&&◌, Option, none, some, ◌==◌, if◌then◌else◌, is_empty,
  ◌>>=◌,
}
use readline.Base.Int.{ℤ, pos, pos_part, minus_one, ltb_ℤ, eqb_ℤ, ◌+ℤ◌, ◌-ℤ◌}
use readline.Core.Line.{Line, len}
use readline.Core.Search.{is_space}
use readline.Core.Tokens.{Split, tokenize, tokenize_space, forward, forward_end, backward}
use readline.Core.Cursor.{
  Cursor, check_append, check_command, inc, dec, move, set_pos, char, index, set_mark,
  beginning_of_line, end_of_line, end_of_line_append,
}
use readline.Core.Cursor.LineMove.{at_beginning_of_line}
use readline.Core.Iterations
use readline.Core.Selection
use readline.Core.Selection.{mark, set_visual, range}
use readline.Editor.Buffers
use readline.Shell.{
  Command, Shell, Unicode, no_mode, vi_insert, vi_command, visual, line, cursor, with_cursor,
  checked, save_history, skip_save, count, times, is_vi_insert, is_visual,
}
use readline.Shell.Moving.{
  beginning_of_line_command, end_of_line_command, autosuggest_accept, insert_autosuggest_partial,
}

-- The resets that begin a change of the mode, of the numeric argument and of the register.
unfoldable pub fresh : Shell → Shell
fresh rl = record rl {
  iterations = Iterations.reset rl.iterations;
  buffers = Buffers.reset rl.buffers;
}

unfoldable pub without_selection : Shell → Shell
without_selection rl = record rl { selection = Selection.reset rl.selection }

unfoldable pub vi_insert_mode : Command
vi_insert_mode rl = do
  saved ← save_history rl
  let rl' = fresh (without_selection saved)
  some (record (with_cursor rl' (set_mark (cursor rl'))) { local = no_mode; main = vi_insert })

unfoldable pub vi_command_mode : Command
vi_command_mode rl = do
  let rl' = fresh (without_selection rl)
  let back = is_vi_insert rl'.main && not (at_beginning_of_line (cursor rl'))
  c ← check_command (if back then dec (cursor rl') else cursor rl')
  some (record (with_cursor rl' c) { local = no_mode; main = vi_command })

-- The modes `viVisualMode` and `viVisualLineMode`.
unfoldable pub enter_visual : Bool → Shell → Shell
enter_visual whole rl =
    let (rl', at) = checked (fresh (skip_save rl)) in
    record rl' { selection = set_visual (mark rl'.selection at) whole; local = visual }

unfoldable pub vi_visual_mode : Shell → Shell
vi_visual_mode rl = enter_visual false rl

unfoldable pub vi_visual_line_mode : Shell → Shell
vi_visual_line_mode rl = enter_visual true rl

unfoldable pub vi_insert_bol : Command
vi_insert_bol rl = do
  rl' ← beginning_of_line_command (record rl { iterations = Iterations.reset rl.iterations })
  vi_insert_mode rl'

unfoldable pub vi_add_next : Command
vi_add_next rl =
    vi_insert_mode (if is_empty (line rl) then rl else with_cursor rl (inc (cursor rl)))

unfoldable pub vi_add_eol : Command
vi_add_eol rl =
    let rl' = record rl { iterations = Iterations.reset rl.iterations } in
    if is_visual rl'.local
    then vi_insert_mode (with_cursor rl' (inc (cursor rl')))
    else do there ← end_of_line_command rl'; vi_insert_mode there

-- The loop of `viForwardChar`: it ends in front of a newline, and panics behind the last rune.
unfoldable pub forward_loop : ℕ → Cursor → Option Cursor
forward_loop zero c = some c
forward_loop (suc n) c =
    let c' = check_append c in
    let later = forward_loop n (inc c') in
    elim (index c'.line (c'.pos +ℤ pos 1)) [
      | none ↦ none
      | some r ↦ if r == b'\n' then some c' else later
    ]

unfoldable pub forward_runes : Command
forward_runes rl =
    let (rl', at) = checked rl in
    if is_vi_insert rl.main
    then some rl
    else if not (ltb_ℤ at (len (line rl') -ℤ pos 1))
    then some rl'
    else do
      c ← forward_loop (pos_part (count rl').1) (cursor rl')
      some (with_cursor (count rl').0 c)

unfoldable pub vi_forward_char : (Line → Line → Bool) → Command
vi_forward_char matches rl =
    let (rl', at) = checked rl in
    if rl.autosuggest && eqb_ℤ at (len (line rl') -ℤ pos 1)
    then autosuggest_accept matches rl'
    else forward_runes (skip_save (if rl.autosuggest then rl' else rl))

-- The loop of `viBackwardChar`: it ends behind a newline, and panics in front of the first rune.
unfoldable pub backward_loop : ℕ → Cursor → Option Cursor
backward_loop zero c = some c
backward_loop (suc n) c =
    let c' = check_append c in
    let later = backward_loop n (dec c') in
    elim (index c'.line (c'.pos -ℤ pos 1)) [
      | none ↦ none
      | some r ↦ if r == b'\n' then some c' else later
    ]

unfoldable pub vi_backward_char : Command
vi_backward_char rl =
    let (rl', at) = checked (count (skip_save rl)).0 in
    if eqb_ℤ at (pos 0)
    then some rl'
    else do c ← backward_loop (pos_part (count rl).1) (cursor rl'); some (with_cursor rl' c)

unfoldable pub vi_goto_column : Command
vi_goto_column rl =
    let (rl', column) = count (skip_save rl) in
    let (there, at) = checked rl' in
    if ltb_ℤ column (pos 0) then some rl' else do
      b ← beginning_of_line (cursor there)
      let begin = check_append b
      e ← end_of_line begin
      let end = check_append e
      let beyond = ltb_ℤ (end.pos -ℤ at) column
      let back = set_pos end at
      some (
          with_cursor there
            (set_pos back (if beyond then end.pos else (begin.pos +ℤ column) -ℤ pos 1)))

unfoldable pub vi_end_of_line : Command
vi_end_of_line rl = do c ← end_of_line_append (cursor rl); some (with_cursor (skip_save rl) c)

-- `Pos` of the selection.
unfoldable pub selected_range : Shell → Shell × ℤ × ℤ
selected_range rl = let (s, b, e) = range rl.selection in (record rl { selection = s }, b, e)

unfoldable pub vi_goto_mark : Shell → Shell
vi_goto_mark rl =
    let (found, b, e) = selected_range rl in
    let (rl', at) = checked found in
    if rl.selection.active
    then with_cursor rl' (set_pos (cursor rl') (if eqb_ℤ b at then e else b))
    else if eqb_ℤ (cursor rl).mark minus_one
    then rl
    else with_cursor rl (set_pos (cursor rl) (cursor rl).mark)

-- The movements by word: a tokenizer, and a motion that reads its answer.
unfoldable pub motion_once : (Line → ℤ → Split) → (Line → Split → Option ℤ) → Command
motion_once split adjust rl = do
  let (rl', at) = checked rl
  offset ← adjust (line rl') (split (line rl') at)
  some (with_cursor rl' (move (cursor rl') offset))

unfoldable pub motion : (Line → ℤ → Split) → (Line → Split → Option ℤ) → Command
motion split adjust rl = times (motion_once split adjust) (skip_save rl)

module _ (u : Unicode) where
  abbrev pub words : Line → ℤ → Split
  words = tokenize u.rune_len u.is_punct

  abbrev pub blank_words : Line → ℤ → Split
  blank_words = tokenize_space u.rune_len

  abbrev pub to_start : Line → Split → Option ℤ
  to_start l split = backward u.rune_len split

  abbrev pub to_next : Line → Split → Option ℤ
  to_next l split = forward u.rune_len l split

  abbrev pub to_end : Line → Split → Option ℤ
  to_end l split = forward_end u.rune_len is_space split

  unfoldable pub vi_backward_word : Command
  vi_backward_word rl = motion words to_start rl

  unfoldable pub vi_backward_blank_word : Command
  vi_backward_blank_word rl = motion blank_words to_start rl

  unfoldable pub vi_forward_blank_word : Command
  vi_forward_blank_word rl = motion blank_words to_next rl

  unfoldable pub vi_forward_word_end : Command
  vi_forward_word_end rl = motion words to_end rl

  unfoldable pub vi_forward_blank_word_end : Command
  vi_forward_blank_word_end rl = motion blank_words to_end rl

  unfoldable pub vi_forward_word : (Line → Line → Bool) → Command
  vi_forward_word matches rl = do
    saved ← save_history rl
    times (λ r. do r' ← insert_autosuggest_partial u matches false r; motion_once words to_next r')
        saved

  -- Back over two words, and then to the end of the one there.
  unfoldable pub word_end_once : Command
  word_end_once rl = do
    first ← motion_once words to_start (with_cursor rl (inc (cursor rl)))
    second ← motion_once words to_start first
    let (c, under) = char (cursor second)
    motion_once words to_end (with_cursor second (if u.is_punct under then dec c else c))

  unfoldable pub vi_backward_word_end : Command
  vi_backward_word_end rl =
      if is_empty (line rl)
      then some (count (skip_save rl)).0
      else times word_end_once (skip_save rl)

  unfoldable pub blank_word_end_once : Command
  blank_word_end_once rl = do
    first ← motion_once blank_words to_start (with_cursor rl (inc (cursor rl)))
    second ← motion_once blank_words to_start first
    motion_once blank_words to_end second

  unfoldable pub vi_backward_blank_word_end : Command
  vi_backward_blank_word_end rl = times blank_word_end_once (skip_save rl)
