-- ===== src/Shell/Safety/Session.antt =====
-- No sequence of the commands of a session panics (readline.go).
use readline.Base.{◌≡◌, refl, true, false, some, List, [], ◌∷◌}
use readline.Shell.{Shell, Unicode}
use readline.Shell.Sound.{IsSound, Steady, run-IsSound}
use readline.Shell.Killing.{kill_buffer}
use readline.Shell.Safety.Deleting.{
  backward_char-Steady, beginning_of_line_command-Steady, end_of_line_command-Steady,
  delete_char-Steady, backward_delete_char-Steady, forward_backward_delete_char-Steady,
  tab_insert-Steady, yank-Steady,
}
use readline.Shell.Safety.Killing.{
  kill_line-Steady, backward_kill_line-Steady, kill_all-Steady, kill_region-Steady,
}
use readline.Shell.Safety.Vi.{
  vi_insert_mode-Steady, vi_command_mode-Steady, enter_visual-IsSteady, vi_delete_char-Steady,
  vi_kill_line-Steady, transpose_chars-Steady,
}
use readline.Shell.ViMoving.{vi_visual_mode, vi_visual_line_mode}
use readline.Shell.Safety.{
  Action, command_of, play, back, line_start, line_end, delete, delete_behind, delete_near, tab,
  kill_end, kill_start, kill_everything, kill_selected, yank_kill, transpose, insert_mode,
  command_mode, visual_mode, visual_line_mode, delete_rune, kill_inserted,
}

module _ (u : Unicode) where
  command_of-Steady : (a : Action) (rl : Shell) → IsSound rl → Steady (command_of u a rl)
  unfolding command_of kill_buffer vi_visual_mode vi_visual_line_mode
  command_of-Steady back rl s = backward_char-Steady rl s.steady
  command_of-Steady line_start rl s = beginning_of_line_command-Steady rl s.steady
  command_of-Steady line_end rl s = end_of_line_command-Steady rl s
  command_of-Steady delete rl s = delete_char-Steady rl s
  command_of-Steady delete_behind rl s = backward_delete_char-Steady rl s
  command_of-Steady delete_near rl s = forward_backward_delete_char-Steady rl s
  command_of-Steady tab rl s = tab_insert-Steady rl s.steady
  command_of-Steady kill_end rl s = kill_line-Steady u rl s
  command_of-Steady kill_start rl s = backward_kill_line-Steady u rl s
  command_of-Steady kill_everything rl s = kill_all-Steady u rl s
  command_of-Steady kill_selected rl s = kill_region-Steady u rl s
  command_of-Steady yank_kill rl s = yank-Steady rl s.steady
  command_of-Steady transpose rl s = transpose_chars-Steady rl s.steady
  command_of-Steady insert_mode rl s = vi_insert_mode-Steady rl s.steady
  command_of-Steady command_mode rl s = vi_command_mode-Steady rl s.steady
  command_of-Steady visual_mode rl s = (_, refl, enter_visual-IsSteady false rl s.steady)
  command_of-Steady visual_line_mode rl s = (_, refl, enter_visual-IsSteady true rl s.steady)
  command_of-Steady delete_rune rl s = vi_delete_char-Steady u rl s.steady
  command_of-Steady kill_inserted rl s = vi_kill_line-Steady u rl s.steady

  -- From a sound state no sequence of these commands panics, whatever the numeric arguments, the
  -- registers and the options are, and the state that it ends in is sound: the cursor lies in the line, and
  -- the undo position is one of the states.
  pub play-IsSound :
      (actions : List Action) (rl : Shell)
      → IsSound rl
      → (rl' : Shell) × (play u actions rl ≡ some rl') × IsSound rl'
  unfolding play
  play-IsSound [] rl s = (rl, refl, s)
  play-IsSound (a ∷ rest) rl s =
      let (there, e, t) = run-IsSound (command_of u a) rl (command_of-Steady a rl s) in
      rw e (play-IsSound rest there t)
