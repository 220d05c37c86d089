-- ===== src/Shell/Safety/Killing.antt =====
-- The commands of emacs.go that kill keep the state steady.
use readline.Base.{refl, not, some, length, arith, is_empty, Bool-cases, inl, inr, if◌then◌else◌}
use readline.Core.Cursor.{check_append, set_pos}
use readline.Shell.{Command, Shell, Unicode, line, cursor, with_cursor, checked}
use readline.Shell.Sound.{IsSteady, IsSound, Steady, cursor-IsSteady, iterations-IsSound}
use readline.Shell.Steps.{
  checked-IsSteady, buffer-IsSteady, store-IsSteady, kill_selection-Steady, kill_range-Steady,
  end_of_line_append-some, beginning_of_line-some, map-Steady, saved-Steady,
}
use readline.Core.Line.Edits.{cut_range}
use readline.Shell.Killing.{
  no_count, store, kill_selection, kill_range, kill_to_end, kill_line, kill_to_beginning,
  backward_kill_line, cut_all, kill_all, kill_region,
}
use readline.Shell.Safety.Deleting.{checked-IsSound}

module _ (u : Unicode) where
  pub kill_to_end-Steady : (rl : Shell) → IsSteady rl → Steady (kill_to_end u rl)
  unfolding kill_to_end
  kill_to_end-Steady rl s =
      let there = (checked rl).0 in
      let t = checked-IsSound rl s in
      let (end, e) = end_of_line_append-some (cursor there) t.valid in
      let at_end = with_cursor there (check_append end) in
      rw e (
        map-Steady (kill_range u at_end (checked rl).1 (check_append end).pos) _
          (kill_range-Steady u at_end _ _ (cursor-IsSteady there (check_append end) t.steady))
          (λ r k. cursor-IsSteady r (set_pos (cursor r) (checked rl).1) k))

  pub kill_to_beginning-Steady : (rl : Shell) → IsSteady rl → Steady (kill_to_beginning u rl)
  unfolding kill_to_beginning
  kill_to_beginning-Steady rl s =
      let there = (checked rl).0 in
      let (begin, e) = beginning_of_line-some (cursor there) in
      rw e (
        kill_range-Steady u (with_cursor there (check_append begin)) _ _
          (cursor-IsSteady there (check_append begin) (checked-IsSteady rl s)))

  -- A kill of a line that is not empty.
  pub full-Steady :
      (f : Command) (rl : Shell)
      → IsSteady rl
      → Steady (f rl)
      → Steady (if is_empty (line rl) then some rl else f rl)
  full-Steady f rl s t = elim (Bool-cases (is_empty (line rl))) [
    | inl e ↦ rw e (rl, refl, s)
    | inr n ↦ rw n t
  ]

  pub no_count-IsSound : (rl : Shell) → IsSound rl → IsSound (no_count rl)
  unfolding no_count
  no_count-IsSound rl s = iterations-IsSound rl _ s

  pub kill_line-Steady : (rl : Shell) → IsSound rl → Steady (kill_line u rl)
  unfolding kill_line
  kill_line-Steady rl s =
      saved-Steady _ (no_count rl) (no_count-IsSound rl s)
        (λ there t. full-Steady (kill_to_end u) there t.steady (kill_to_end-Steady there t.steady))

  pub backward_kill_line-Steady : (rl : Shell) → IsSound rl → Steady (backward_kill_line u rl)
  unfolding backward_kill_line
  backward_kill_line-Steady rl s = saved-Steady _ (no_count rl) (no_count-IsSound rl s) (λ there t.
      full-Steady (kill_to_beginning u) there t.steady (kill_to_beginning-Steady there t.steady))

  pub cut_all-Steady : (rl : Shell) → IsSteady rl → Steady (cut_all u rl)
  unfolding cut_all
  cut_all-Steady rl s =
      rw (cut_range (line rl) 0 (length (line rl)) (omega arith) (omega arith)).0
        (_, refl, buffer-IsSteady (store u rl (line rl)) _ (store-IsSteady u rl (line rl) s))

  pub kill_all-Steady : (rl : Shell) → IsSound rl → Steady (kill_all u rl)
  unfolding kill_all
  kill_all-Steady rl s =
      saved-Steady _ rl s
        (λ there t. full-Steady (cut_all u) there t.steady (cut_all-Steady there t.steady))

  pub kill_region-Steady : (rl : Shell) → IsSound rl → Steady (kill_region u rl)
  unfolding kill_region
  kill_region-Steady rl s = saved-Steady _ rl s (λ there t. kill_active there t.steady)
    where
      kill_active :
          (there : Shell)
          → IsSteady there
          → Steady (if not there.selection.active then some there else kill_selection u there)
      kill_active there t = elim (Bool-cases (not there.selection.active)) [
        | inl e ↦ rw e (there, refl, t)
        | inr a ↦ rw a (kill_selection-Steady u there t)
      ]
