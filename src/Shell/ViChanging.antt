-- ===== src/Shell/ViChanging.antt =====
-- The commands of vim.go that change, kill and put text. A key that `ReadKey` reads is an argument,
-- none if the read is aborted.
use readline.Base.{
  ℕ, zero, suc, ◌-◌, Bool, true, false, not, ◌&&◌, ◌||◌, Option, none, some, [], ◌∷◌, ◌++◌, ◌==◌,
  if◌then◌else◌, length, take, get_or, is_empty, ◌>>=◌,
}
use readline.Base.Int.{ℤ, pos, pos_part, ltb_ℤ, eqb_ℤ, ◌-ℤ◌}
use readline.Core.Line.{Line, len, insert, cut}
use readline.Core.Surround.{match_surround}
use readline.Core.Cursor.{
  Cursor, check_append, inc, dec, set_pos, char, index, replace_with, insert_at, on_empty_line,
  beginning_of_line, end_of_line_append,
}
use readline.Core.Cursor.LineMove.{at_beginning_of_line}
use readline.Core.Selection.{mark, mark_range, set_visual, slice_of, cut_selection, surround_with}
use readline.Core.Selection.Operations.{cursor_of, replace_selection}
use readline.Editor.Buffers
use readline.Editor.Buffers.{active_content, set_active}
use readline.Shell.{
  Command, Shell, Unicode, line, cursor, with_cursor, with_buffer, checked, save_history, skip_save,
  count, times, is_vi_insert,
}
use readline.Shell.Moving.{beginning_of_line_command, end_of_line_command}
use readline.Shell.Changing.{cut_under, backward_delete_char}
use readline.Shell.Killing.{store, no_count, kill_selection}
use readline.Shell.ViMoving.{vi_insert_mode, without_selection, selected_range}

unfoldable pub vi_change_char : Option ℕ → Command
vi_change_char none rl = do saved ← save_history rl; some (skip_save saved)
vi_change_char (some key) rl = do
  saved ← save_history rl
  if not (saved.selection.active && saved.selection.visual)
      then some (with_cursor saved (replace_with (cursor saved) key))
      else do
        s ← replace_selection saved.selection (λ r. key)
        some (record saved { selection = s })

unfoldable pub vi_backward_delete_char : Command
vi_backward_delete_char rl =
    if at_beginning_of_line (cursor rl) then some rl else backward_delete_char rl

unfoldable pub vi_open_line_above : Command
vi_open_line_above rl = do
  saved ← save_history rl
  empty ← on_empty_line (cursor saved)
  rl' ← if empty then some saved else beginning_of_line_command saved
  vi_insert_mode (with_cursor rl' (dec (insert_at (cursor rl') (b'\n' ∷ []))))

unfoldable pub vi_open_line_below : Command
vi_open_line_below rl = do
  saved ← save_history rl
  empty ← on_empty_line (cursor saved)
  rl' ← if empty then some saved else end_of_line_command saved
  vi_insert_mode (with_cursor rl' (insert_at (cursor rl') (b'\n' ∷ [])))

unfoldable pub vi_change_eol : Command
vi_change_eol rl = do
  saved ← save_history rl
  let (rl', at) = checked (skip_save saved)
  let marked = record rl' { selection = mark rl'.selection at }
  end ← end_of_line_append (cursor marked)
  (s, text) ← cut_selection (with_cursor marked end).selection
  vi_insert_mode
      (no_count (record marked { selection = record s { cursor = set_pos s.cursor at } }))

unfoldable pub vi_add_surround : Option ℕ → Command
vi_add_surround none rl = some (skip_save rl)
vi_add_surround (some key) rl = do
  saved ← save_history rl
  s ← surround_with saved.selection (match_surround key).0 (match_surround key).1
  some (record saved { selection = s })

-- The last rune of a text that is not empty.
unfoldable pub ends_line : Line → Bool
ends_line buf = get_or buf (length buf - 1) 0 == b'\n'

unfoldable pub insert_copies : Line → ℤ → ℕ → Line → Line
insert_copies buf at zero l = l
insert_copies buf at (suc n) l = insert_copies buf at n (insert l at buf)

-- The text that `viPutAfter` inserts, and the cursor in front of the place: a whole line goes behind
-- the line of the cursor.
unfoldable pub place_after : Cursor → Line → Option (Cursor × Line)
place_after c buf = if not (ends_line buf) then some (c, buf) else do
  empty ← on_empty_line c
  d ← if empty then some c else end_of_line_append c
  let at_end = eqb_ℤ (check_append d).pos (len d.line)
  some (check_append d, if at_end then b'\n' ∷ take (length buf - 1) buf else buf)

unfoldable pub put_copies : Line → ℤ → Command
put_copies buf at rl =
    let (rl', n) = count rl in some (with_buffer rl' (insert_copies buf at (pos_part n) (line rl')))

unfoldable pub vi_put_after : Command
vi_put_after rl = do
  saved ← save_history rl
  let (b, buf) = active_content saved.buffers
  let rl' = record saved { buffers = b }
  if is_empty buf then some rl' else do
    (c, text) ← place_after (cursor rl') buf
    let (there, at) = checked (with_cursor rl' (inc c))
    put_copies text at there

-- What `viPutBefore` inserts: a whole line goes in front of the line of the cursor.
unfoldable pub place_before : Cursor → Line → Option (Cursor × Line)
place_before c buf = if not (ends_line buf) then some (c, buf) else do
  d ← beginning_of_line c
  empty ← on_empty_line d
  some (if empty then (dec d, buf ++ b'\n' ∷ []) else (d, buf))

unfoldable pub vi_put_before : Command
vi_put_before rl = do
  saved ← save_history rl
  let (b, buf) = active_content saved.buffers
  let rl' = record saved { buffers = b }
  if is_empty buf then some rl' else do
    (c, text) ← place_before (cursor rl') buf
    let (there, at) = checked (with_cursor rl' c)
    put ← put_copies text at there
    some (with_cursor put (set_pos (cursor put) at))

unfoldable pub vi_put : Command
vi_put rl = do
  key ← index rl.keys.matched (pos 0)
  if key == b'P' then vi_put_before rl else vi_put_after rl

unfoldable pub vi_set_buffer : Option ℕ → Shell → Shell
vi_set_buffer none rl = record (skip_save rl) { buffers = Buffers.reset rl.buffers }
vi_set_buffer (some key) rl = record (skip_save rl) {
  buffers = set_active (Buffers.reset rl.buffers) key;
}

-- The case of a rune, swapped.
unfoldable pub swapped_case : Unicode → ℕ → ℕ
swapped_case u r = if u.is_lower r then u.to_upper r else u.to_lower r

-- The loop of `viDeleteChar`: the runes that are cut, and the shell.
unfoldable pub delete_loop : ℕ → Shell × Line → Option (Shell × Line)
delete_loop zero (rl, buf) = some (rl, buf)
delete_loop (suc n) (rl, buf) = do
  let (c, under) = char (cursor rl)
  rl' ← cut_under (with_cursor rl c)
  delete_loop n (rl', buf ++ under ∷ [])

-- The loop of `viRubout`, which ends at the start of the line.
unfoldable pub rubout_loop : ℕ → Shell × Line → Option (Shell × Line)
rubout_loop zero (rl, buf) = some (rl, buf)
rubout_loop (suc n) (rl, buf) =
    let (rl', at) = checked rl in
    let (c, under) = char (dec (cursor rl')) in
    if eqb_ℤ at (pos 0)
    then some (rl', buf)
    else do cut ← cut_under (with_cursor rl' c); rubout_loop n (cut, buf ++ under ∷ [])

module _ (u : Unicode) where
  unfoldable pub vi_delete_char : Command
  vi_delete_char rl =
      let (rl', at) = checked rl in
      if is_empty (line rl) then some rl else if eqb_ℤ at (len (line rl')) then some rl' else do
        saved ← save_history rl'
        (cut, buf) ← delete_loop (pos_part (count saved).1) ((count saved).0, [])
        some (store u cut buf)

  unfoldable pub vi_rubout : Command
  vi_rubout rl = do
    saved ← if is_vi_insert rl.main then some rl else save_history rl
    (cut, buf) ← rubout_loop (pos_part (count saved).1) ((count saved).0, [])
    some (store u cut buf)

  unfoldable pub vi_change_case : Command
  vi_change_case rl =
      let (rl', at) = checked rl in
      if rl.selection.active && rl.selection.visual
      then (do
        s ← replace_selection rl.selection (swapped_case u)
        some (record rl { selection = s }))
      else if is_empty (line rl)
      then some rl
      else if eqb_ℤ at (len (line rl'))
      then some rl'
      else let (c, under) = char (cursor rl') in
        some (with_cursor rl' (replace_with c (swapped_case u under)))

  unfoldable pub vi_kill_eol : Command
  vi_kill_eol rl = do
    saved ← save_history rl
    let (rl', at) = checked saved
    let marked = record rl' { selection = mark rl'.selection at }
    end ← end_of_line_append (cursor marked)
    killed ← kill_selection u (with_cursor marked end)
    let c = set_pos (cursor killed) at
    some (no_count (with_cursor killed (if at_beginning_of_line c then c else dec c)))

  unfoldable pub kill_from_mark : Command
  kill_from_mark rl =
      let s = mark_range rl.selection (cursor rl).mark (len (line rl)) in
      kill_selection u (record rl { selection = record s { cursor = dec s.cursor } })

  unfoldable pub vi_kill_line : Command
  vi_kill_line rl =
      let (rl', at) = checked rl in
      if not (ltb_ℤ (cursor rl').mark at) || eqb_ℤ at (pos 0)
      then some rl'
      else do saved ← save_history rl'; kill_from_mark saved

  -- The whole line of the cursor, without its newline.
  unfoldable pub selected_line : Shell → Option (Shell × ℤ × ℤ)
  selected_line rl = do
    let (at_rl, at) = checked rl
    let (rl', b, e) =
        selected_range (record at_rl { selection = set_visual (mark at_rl.selection at) true })
    last ← index (line rl') (e -ℤ pos 1)
    some (rl', b, if last == b'\n' then e -ℤ pos 1 else e)

  unfoldable pub vi_yank_whole_line : Command
  vi_yank_whole_line rl = do
    (rl', b, e) ← selected_line (skip_save rl)
    text ← slice_of (line rl') b e
    some (without_selection (store u rl' text))

  -- The case `S` of `viSubstitute`, for a line that is not empty: the register takes the line with its
  -- newline, and the line loses it without.
  unfoldable pub substitute_line : Command
  substitute_line rl = do
    let (at_rl, at) = checked rl
    let (rl', b, e) =
        selected_range (record at_rl { selection = set_visual (mark at_rl.selection at) true })
    text ← slice_of (line rl') b e
    last ← index (line rl') (e -ℤ pos 1)
    l ← cut (line rl') b (if last == b'\n' then e -ℤ pos 1 else e)
    let killed = with_buffer (store u rl' text) l
    some (with_cursor killed (set_pos (cursor killed) b))

  unfoldable pub substitute : Command
  substitute rl =
      if rl.selection.active
      then (do
        (s, text) ← cut_selection (cursor_of rl.selection).0
        some (record rl {
          selection = record s { cursor = set_pos s.cursor (cursor_of rl.selection).1 };
        }))
      else do
        key ← index rl.keys.matched (pos 0)
        empty ← if key == b'S' then on_empty_line (cursor rl) else some false
        elim (key == b's') [
          | true ↦ times cut_under rl
          | false ↦ if not (key == b'S') || empty then some rl else substitute_line rl
        ]

  unfoldable pub vi_substitute : Command
  vi_substitute rl = do saved ← save_history rl; rl' ← substitute saved; vi_insert_mode rl'
