-- ===== src/Shell/Changing.antt =====
-- The commands of emacs.go that change the text. The width of a string on the terminal, by the package
-- uniseg, is an argument of `self_insert`, as is the option `output-meta`.
use readline.Base.{
  ℕ, Bool, ◌&&◌, true, false, not, ◌||◌, Option, some, [], ◌∷◌, ◌==◌, ltb, if◌then◌else◌, length,
  set, is_empty, ◌>>=◌,
}
use readline.Base.Int.{ℤ, pos, pos_part, ltb_ℤ, eqb_ℤ, ◌-ℤ◌}
use readline.Core.Line.{Line, len, insert, cut, cut_rune}
use readline.Core.Search.{is_space}
use readline.Core.Tokens.{tokenize, forward_end, backward}
use readline.Core.Cursor.{
  Cursor, check_append, inc, dec, move, set_pos, char, replace_with, insert_at, index,
  to_first_non_space,
}
use readline.Core.Selection.{mark, cut_selection, surround_with}
use readline.Core.Selection.Operations.{replace_selection}
use readline.Shell.{
  Command, Shell, Unicode, line, cursor, with_cursor, with_buffer, checked, save_history, skip_save,
  count, repeat, times, is_vi_insert,
}
use readline.Inputrc.Codes.{escape_code}
use readline.Strutil.Key.{quoted_key, quote}
use readline.Shell.Pairs.{autopair_insert_or_jump, autopair_delete}

-- `rl.line.CutRune(rl.cursor.Pos())`
unfoldable pub cut_under : Command
cut_under rl = do let (rl', at) = checked rl; l ← cut_rune (line rl') at; some (with_buffer rl' l)

unfoldable pub delete_char : Command
delete_char rl = do rl' ← save_history rl; times cut_under rl'

unfoldable pub delete_back : Command
delete_back rl = cut_under (with_cursor rl (dec (cursor rl)))

-- The switch of `backwardDeleteChar`, for the number of its runs.
unfoldable pub delete_pair : ℤ → Command
delete_pair n rl =
    if not (eqb_ℤ n (pos 1))
    then repeat delete_back (pos_part n) rl
    else if not rl.autopairs
    then delete_back rl
    else do c ← autopair_delete (cursor rl); delete_back (with_cursor rl c)

unfoldable pub backward_delete_char : Command
backward_delete_char rl = do
  saved ← if is_vi_insert rl.main then some (skip_save rl) else save_history rl
  let (rl', at) = checked saved
  if eqb_ℤ at (pos 0) then some rl' else delete_pair (count rl').1 (count rl').0

unfoldable pub forward_backward_delete_char : Command
forward_backward_delete_char rl =
    let (rl', at) = checked rl in
    if eqb_ℤ at (len (line rl')) then backward_delete_char rl' else delete_char rl'

unfoldable pub tab_insert : Command
tab_insert rl = some (skip_save (with_cursor rl (insert_at (cursor rl) (b'\t' ∷ []))))

-- The last steps of `selfInsert`, for a key that prints as `quoted` with the given width.
unfoldable pub insert_quoted : Line → ℤ → Cursor → Cursor
insert_quoted quoted width c = move (move (insert_at c quoted) (pos 0 -ℤ len quoted)) width

-- What is inserted for a key, and how far the cursor moves.
unfoldable pub key_text : Unicode → (Line → ℤ) → Bool → ℕ → Line × ℤ
key_text u string_width output_meta key =
    if output_meta && not (key == escape_code)
    then (key ∷ [], string_width (key ∷ []))
    else (quoted_key u.to_upper key, pos (quote u.to_upper key).1)

unfoldable pub self_insert : Unicode → (Line → ℤ) → Bool → Command
self_insert u string_width output_meta rl = do
  key ← index rl.keys.matched (pos 0)
  let rl' = skip_save rl
  let (c, jump) =
      if rl'.autopairs then autopair_insert_or_jump key (cursor rl') else (cursor rl', false)
  let (text, width) = key_text u string_width output_meta key
  some (with_cursor rl' (if jump then c else insert_quoted text width c))

-- The two runes in front of the end of the line, swapped.
unfoldable pub swap_last : Shell → ℤ → Option Shell
swap_last rl at = do
  last ← index (line rl) (at -ℤ pos 1)
  before ← index (line rl) (at -ℤ pos 2)
  some (
      with_buffer rl
        (set (set (line rl) (pos_part (at -ℤ pos 2)) last) (pos_part (at -ℤ pos 1)) before))

-- The rune in front of the cursor and the one under it, swapped.
unfoldable pub swap_around : Shell → ℤ → Option Shell
swap_around rl at = do
  let (c, last) = char (cursor rl)
  before ← index (line rl) (at -ℤ pos 1)
  let swapped = record c { line = set c.line (pos_part (at -ℤ pos 1)) last }
  some (with_cursor rl (replace_with swapped before))

unfoldable pub swap_runes : Shell → ℤ → Option Shell
swap_runes rl at = if eqb_ℤ at (len (line rl)) then swap_last rl at else swap_around rl at

unfoldable pub transpose_chars : Command
transpose_chars rl =
    let (rl', at) = checked rl in
    if ltb_ℤ at (pos 2) || ltb (length (line rl')) 2
    then some (skip_save rl')
    else do saved ← save_history rl'; swap_runes (checked saved).0 (checked saved).1

unfoldable pub delete_horizontal_whitespace : Command
delete_horizontal_whitespace rl = do
  saved ← save_history rl
  let (rl', start) = checked saved
  c ← to_first_non_space (cursor rl') false
  let first = check_append c
  let begin = check_append (if eqb_ℤ first.pos start then first else inc first)
  d ← to_first_non_space begin true
  let last = check_append d
  let end = check_append (if eqb_ℤ last.pos start then last else dec last)
  l ← cut end.line begin.pos end.pos
  some (with_cursor rl' (set_pos (record end { line = l }) begin.pos))

unfoldable pub quote_region : Command
quote_region rl = do
  rl' ← save_history rl
  s ← surround_with rl'.selection b'\'' b'\''
  some (record rl' { selection = record s { cursor = inc s.cursor } })

-- The loop of `quoteLine`, up to the first newline.
unfoldable pub requoted : Line → Line
requoted [] = []
requoted (r ∷ rest) =
    let later = requoted rest in
    if r == b'\n' then r ∷ rest else (if r == b'\'' then b'"' else r) ∷ later

unfoldable pub quote_line : Shell → Shell
quote_line rl =
    let quoted = insert (requoted (line rl)) (pos 0) (b'\'' ∷ []) in
    if is_empty (line rl) then rl else with_buffer rl (insert quoted (len quoted) (b'\'' ∷ []))

module _ (u : Unicode) where
  -- From the rune behind the cursor back to the start of the word.
  unfoldable pub to_word : Command
  to_word rl = do
    let (rl', at) = checked (with_cursor rl (inc (cursor rl)))
    adjust ← backward u.rune_len (tokenize u.rune_len u.is_punct (line rl') at)
    some (with_cursor rl' (move (cursor rl') adjust))

  -- A mark at the cursor, which goes on to the end of the word.
  unfoldable pub mark_word : Command
  mark_word rl = do
    let (rl', at) = checked rl
    let rl'' = record rl' { selection = mark rl'.selection at }
    adjust ← forward_end u.rune_len is_space (tokenize u.rune_len u.is_punct (line rl'') at)
    some (with_cursor rl'' (move (cursor rl'') adjust))

  -- The body that `downCaseWord` and `upCaseWord` share.
  unfoldable pub case_word : (ℕ → ℕ) → Command
  case_word to rl = do
    saved ← save_history rl
    let (rl', start) = checked saved
    begin ← to_word rl'
    marked ← mark_word begin
    s ← replace_selection marked.selection to
    some (record marked { selection = record s { cursor = set_pos s.cursor start } })

  unfoldable pub down_case_word : Command
  down_case_word rl = case_word u.to_lower rl

  unfoldable pub up_case_word : Command
  up_case_word rl = case_word u.to_upper rl

  unfoldable pub capitalize_word : Command
  capitalize_word rl = if is_empty (line rl) then some rl else do
    saved ← save_history rl
    let (rl', start) = checked saved
    begin ← to_word rl'
    let (c, letter) = char (cursor begin)
    some (with_cursor begin (set_pos (replace_with c (u.to_upper letter)) start))

  unfoldable pub delete_word : Command
  delete_word rl = do
    saved ← save_history rl
    marked ← mark_word saved
    (s, text) ← cut_selection marked.selection
    some (record marked { selection = s })
