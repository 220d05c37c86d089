-- ===== src/Shell/Safety.antt =====
-- Sessions of commands (readline.go, emacs.go, vim.go).
pub mod Deleting
pub mod Killing
pub mod Vi
pub mod Session
use readline.Base.{
  ℕ, zero, suc, ◌≡◌, refl, Bool, true, false, not, ◌&&◌, Option, none, some, List, [], ◌∷◌, ◌>>=◌,
  length, arith, is_empty, Bool-cases, Option-cases, inl, inr, if◌then◌else◌,
}
use readline.Base.Int.{ℤ, pos, pos_part, minus_one, eqb_ℤ, ltb_ℤ, ◌-ℤ◌}
use readline.Core.Line.{Line, len, cut}
use readline.Core.Cursor.{
  Cursor, check_append, dec, inc, set_pos, insert_at, end_of_line_append, beginning_of_line,
}
use readline.Core.Cursor.Checks.{IsValid, check_append_id, check_append-IsValid}
use readline.Core.Cursor.Command.{check_command_lem}
use readline.Core.Iterations.{Iterations, add}
use readline.Editor.Buffers.{active_content}
use readline.Shell.{
  Command, Shell, Unicode, line, cursor, with_cursor, with_buffer, checked, save_history, skip_save,
  count, repeat, times, run, is_emacs, is_vi_insert,
}
use readline.Shell.Sound.{
  IsSteady, IsSound, Steady, AlwaysSteady, cursor-IsSteady, skip_save-IsSteady, count-IsSteady,
  repeat-Steady, times-Steady, save_history-IsSound, iterations-IsSound, run-IsSound,
}
use readline.Shell.Steps.{
  checked-IsSteady, buffer-IsSteady, store-IsSteady, cut_under-Steady, kill_selection-Steady,
  kill_range-Steady, end_of_line_append-some, beginning_of_line-some, map-Steady, saved-Steady,
}
use readline.Base.Int.{int_laws}
use readline.Core.Line.{cut_rune}
use readline.Core.Line.Edits.{cut_rune-ne-none, cut_range}
use readline.Core.Cursor.{char, get_pos}
use readline.Core.Cursor.Motion.{index-some}
use readline.Core.Surround.{is_surround}
use readline.Strutil.Quotes.{surround_type}
use readline.Shell.Pairs.{autopair_delete}
use readline.Shell.Moving.{backward_char, beginning_of_line_command, end_of_line_command}
use readline.Shell.Changing.{
  transpose_chars, cut_under, delete_char, delete_back, delete_pair, backward_delete_char,
  forward_backward_delete_char, tab_insert,
}
use readline.Shell.Killing.{
  no_count, yank_once, yank, store, kill_selection, kill_range, kill_to_end, kill_line,
  kill_to_beginning, backward_kill_line, cut_all, kill_all, kill_buffer, kill_region,
}
use readline.Shell.ViMoving.{vi_insert_mode, vi_command_mode, vi_visual_mode, vi_visual_line_mode}
use readline.Shell.ViChanging.{vi_delete_char, vi_kill_line}

-- The commands of a session.
pub data Action : Type 0 where
  back : Action
  line_start : Action
  line_end : Action
  delete : Action
  delete_behind : Action
  delete_near : Action
  tab : Action
  kill_end : Action
  kill_start : Action
  kill_everything : Action
  kill_selected : Action
  yank_kill : Action
  transpose : Action
  insert_mode : Action
  command_mode : Action
  visual_mode : Action
  visual_line_mode : Action
  delete_rune : Action
  kill_inserted : Action

unfoldable pub command_of : Unicode → Action → Command
command_of u back = backward_char
command_of u line_start = beginning_of_line_command
command_of u line_end = end_of_line_command
command_of u delete = delete_char
command_of u delete_behind = backward_delete_char
command_of u delete_near = forward_backward_delete_char
command_of u tab = tab_insert
command_of u kill_end = kill_line u
command_of u kill_start = backward_kill_line u
command_of u kill_everything = kill_buffer u
command_of u kill_selected = kill_region u
command_of u yank_kill = yank
command_of u transpose = transpose_chars
command_of u insert_mode = vi_insert_mode
command_of u command_mode = vi_command_mode
command_of u visual_mode = λ rl. some (vi_visual_mode rl)
command_of u visual_line_mode = λ rl. some (vi_visual_line_mode rl)
command_of u delete_rune = vi_delete_char u
command_of u kill_inserted = vi_kill_line u

-- The commands that are typed, one behind the other.
unfoldable pub play : Unicode → List Action → Command
play u [] rl = some rl
play u (a ∷ rest) rl = do rl' ← run (command_of u a) rl; play u rest rl'
