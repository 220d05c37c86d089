-- ===== src/Shell/Safety/Vi.antt =====
-- The commands of vim.go keep the state steady, and so does the swap of two runes (emacs.go).
use readline.Base.{
  ℕ, zero, suc, ◌≡◌, refl, Bool, false, not, ◌&&◌, ◌||◌, some, [], ◌∷◌, ◌++◌, ◌>>=◌, ◌∙◌, ap, set,
  length, arith, is_empty, Bool-cases, inl, inr, if◌then◌else◌, ltb,
}
use readline.Base.Int.{ℤ, pos, pos_part, minus_one, eqb_ℤ, ltb_ℤ, ◌-ℤ◌, int_laws}
use readline.Core.Line.{Line, len}
use readline.Core.Cursor.{Cursor, dec, set_mark, char, index, get_pos, replace_with}
use readline.Core.Cursor.Checks.{IsValid, check_append_id}
use readline.Core.Cursor.Command.{check_command_lem}
use readline.Core.Cursor.Motion.{index-some}
use readline.Core.Cursor.LineMove.{at_beginning_of_line}
use readline.Core.Selection.{Selection, mark, mark_range, set_visual, reset, line_of}
use readline.History.Sources.{History}
use readline.Shell.{
  Mode, Shell, Unicode, vi_insert, vi_command, no_mode, line, cursor, with_cursor, with_buffer,
  checked, skip_save, count, is_vi_insert,
}
use readline.Shell.Sound.{
  IsSteady, IsSound, Steady, AlwaysSteady, cursor-IsSteady, skip_save-IsSteady, count-IsSteady,
  save_history-IsSteady, save_history-history,
}
use readline.Shell.Steps.{
  buffer-IsSteady, checked-IsSteady, selection-IsSteady, store-IsSteady, cut_under-Steady,
  kill_selection-Steady, reset-surrounds, mark_range-surrounds, saved-Steady,
}
use readline.Shell.Changing.{swap_last, swap_around, swap_runes, transpose_chars}
use readline.Shell.Killing.{store}
use readline.Shell.ViMoving.{
  fresh, without_selection, vi_insert_mode, vi_command_mode, enter_visual,
}
use readline.Shell.ViChanging.{kill_from_mark, delete_loop, vi_delete_char, vi_kill_line}
use readline.Shell.Safety.Deleting.{checked-IsSound}

fresh-IsSteady : (rl : Shell) → IsSteady rl → IsSteady (fresh rl)
unfolding fresh
fresh-IsSteady rl s = record { no_surrounds = s.no_surrounds; kept = s.kept }

without_selection-IsSteady : (rl : Shell) → IsSteady rl → IsSteady (without_selection rl)
unfolding without_selection
without_selection-IsSteady rl s =
    selection-IsSteady rl (reset rl.selection) (reset-surrounds rl.selection s.no_surrounds) s

-- The keymaps change nothing of this.
modes-IsSteady :
    (rl : Shell) (m l : Mode) → IsSteady rl → IsSteady (record rl { main = m; local = l })
modes-IsSteady rl m l s = record { no_surrounds = s.no_surrounds; kept = s.kept }

pub vi_insert_mode-Steady : AlwaysSteady vi_insert_mode
unfolding vi_insert_mode
vi_insert_mode-Steady rl s =
    let (saved, e, t, same) = save_history-IsSteady rl s in
    let there = fresh (without_selection saved) in
    let marked = with_cursor there (set_mark (cursor there)) in
    (
      record marked { main = vi_insert; local = no_mode },
      rw e refl,
      modes-IsSteady marked vi_insert no_mode (
          cursor-IsSteady there (set_mark (cursor there))
            (fresh-IsSteady _ (without_selection-IsSteady saved t))),
    )

pub vi_command_mode-Steady : AlwaysSteady vi_command_mode
unfolding vi_command_mode
vi_command_mode-Steady rl s =
    let there = fresh (without_selection rl) in
    let back = is_vi_insert there.main && not (at_beginning_of_line (cursor there)) in
    let (c, e, line, valid, on_rune) =
      check_command_lem (if back then dec (cursor there) else cursor there) in
    (
      record (with_cursor there c) { main = vi_command; local = no_mode },
      rw e refl,
      modes-IsSteady (with_cursor there c) vi_command no_mode
          (cursor-IsSteady there c (fresh-IsSteady _ (without_selection-IsSteady rl s))),
    )

mark-surrounds : (s : Selection) (at : ℤ) → (mark s at).surrounds ≡ s.surrounds
unfolding mark
mark-surrounds s at = ground (arith, mark_range-surrounds s at minus_one)

mark-IsSteady :
    (rl : Shell) (at : ℤ) → IsSteady rl → IsSteady (record rl { selection = mark rl.selection at })
mark-IsSteady rl at s =
    selection-IsSteady rl (mark rl.selection at) (mark-surrounds rl.selection at ∙ s.no_surrounds) s

pub enter_visual-IsSteady :
    (whole : Bool) (rl : Shell) → IsSteady rl → IsSteady (enter_visual whole rl)
unfolding enter_visual set_visual
enter_visual-IsSteady whole rl s =
    let there = (checked (fresh (skip_save rl))).0 in
    let k =
      mark-IsSteady there (checked (fresh (skip_save rl))).1
        (checked-IsSteady _ (fresh-IsSteady _ (skip_save-IsSteady rl s))) in
    record { no_surrounds = k.no_surrounds; kept = k.kept }

delete_loop-Steady :
    (n : ℕ) (rl : Shell) (buf : Line)
    → IsSteady rl
    → (r : Shell × Line) × (delete_loop n (rl, buf) ≡ some r) × IsSteady r.0
unfolding delete_loop
delete_loop-Steady zero rl buf s = ((rl, buf), refl, s)
delete_loop-Steady (suc n) rl buf s =
    let (c, under) = char (cursor rl) in
    let (there, e, t) = cut_under-Steady (with_cursor rl c) (cursor-IsSteady rl c s) in
    let (r, f, k) = delete_loop-Steady n there (buf ++ under ∷ []) t in (r, rw (e, f) refl, k)

module _ (u : Unicode) where
  delete_runes-Steady :
      (saved : Shell)
      → IsSteady saved
      → Steady (
          delete_loop (pos_part (count saved).1) ((count saved).0, []) >>= λ r.
          some (store u r.0 r.1))
  delete_runes-Steady saved s =
      let (r, e, t) =
        delete_loop-Steady (pos_part (count saved).1) (count saved).0 [] (count-IsSteady saved s) in
      (store u r.0 r.1, rw e refl, store-IsSteady u r.0 r.1 t)

  pub vi_delete_char-Steady : (rl : Shell) → IsSteady rl → Steady (vi_delete_char u rl)
  unfolding vi_delete_char
  vi_delete_char-Steady rl s =
      let there = (checked rl).0 in
      let t = checked-IsSound rl s in
      elim (Bool-cases (is_empty (line rl))) [
        | inl empty ↦ (rl, rw empty refl, s)
        | inr full ↦ elim (Bool-cases (eqb_ℤ (checked rl).1 (len (line there)))) [
          | inl end ↦ (there, rw (full, end) refl, t.steady)
          | inr inside ↦
              rw (full, inside)
                (saved-Steady _ there t (λ saved k. delete_runes-Steady saved k.steady))
        ]
      ]

  kill_from_mark-Steady : AlwaysSteady (kill_from_mark u)
  unfolding kill_from_mark
  kill_from_mark-Steady saved s =
      let marked = mark_range saved.selection (cursor saved).mark (len (line saved)) in
      kill_selection-Steady u _ (
        selection-IsSteady saved (record marked { cursor = dec marked.cursor })
          (mark_range-surrounds saved.selection (cursor saved).mark (len (line saved))
            ∙ s.no_surrounds)
          s)

  pub vi_kill_line-Steady : (rl : Shell) → IsSteady rl → Steady (vi_kill_line u rl)
  unfolding vi_kill_line
  vi_kill_line-Steady rl s =
      let there = (checked rl).0 in
      let t = checked-IsSound rl s in
      elim (Bool-cases
        (not (ltb_ℤ (cursor there).mark (checked rl).1) || eqb_ℤ (checked rl).1 (pos 0))) [
          | inl stays ↦ (there, rw stays refl, t.steady)
          | inr kills ↦
              rw kills (saved-Steady _ there t (λ saved k. kill_from_mark-Steady saved k.steady))
        ]

-- The swap reads the line at positions that it has checked.
index-before :
    (c : Cursor) (n : ℕ)
    → IsValid c
    → ltb_ℤ c.pos (pos (suc n)) ≡ false
    → (r : ℕ) × (index c.line (c.pos -ℤ pos (suc n)) ≡ some r)
index-before c n v h =
    index-some c.line (c.pos -ℤ pos (suc n)) (grind (int_laws, h, v.pos_from))
      (grind (int_laws, h, v.pos_to))

swap_runes-Steady :
    (rl : Shell)
    → IsSound rl
    → ltb_ℤ (cursor rl).pos (pos 2) ≡ false
    → Steady (swap_runes rl (cursor rl).pos)
unfolding swap_runes swap_last swap_around line line_of cursor
swap_runes-Steady rl s h =
    let c = rl.selection.cursor in
    let (before, e) = index-before c 0 s.valid (ground (arith, h)) in
    let (last, f) = index-before c 1 s.valid h in
    let (d, under) = char c in
    let at = pos_part (c.pos -ℤ pos 1) in
    elim (Bool-cases (eqb_ℤ c.pos (len c.line))) [
      | inl end ↦
          let l = set (set c.line (pos_part (c.pos -ℤ pos 2)) before) at last in
          (with_buffer rl l, rw (end, e, f) refl, buffer-IsSteady rl l s.steady)
      | inr inside ↦
          let d' = replace_with (record d { line = set d.line at under }) before in
          (with_cursor rl d', rw (inside, e) refl, cursor-IsSteady rl d' s.steady)
    ]

pub checked-pos : (rl : Shell) → (checked rl).1 ≡ (cursor (checked rl).0).pos
unfolding checked get_pos with_cursor cursor
checked-pos rl = refl

pub checked-same : (rl : Shell) → IsSound rl → (checked rl).0 ≡ rl
unfolding checked get_pos with_cursor cursor
checked-same rl s =
    ap (λ (c : Cursor). record rl { selection = record rl.selection { cursor = c } })
      (check_append_id (cursor rl) s.valid)

pub transpose_chars-Steady : (rl : Shell) → IsSteady rl → Steady (transpose_chars rl)
unfolding transpose_chars checked with_cursor cursor
transpose_chars-Steady rl s =
    let there = (checked rl).0 in
    let t = checked-IsSound rl s in
    elim (Bool-cases (ltb_ℤ (checked rl).1 (pos 2) || ltb (length (line there)) 2)) [
      | inl stays ↦ (skip_save there, rw stays refl, skip_save-IsSteady there t.steady)
      | inr swaps ↦
          let (h, e, k) = save_history-history there t in
          let saved = record there { history = h } in
          let far : ltb_ℤ (checked rl).1 (pos 2) ≡ false = ground (arith, swaps) in
          rw (swaps, e, checked-pos saved, checked-same saved k)
            (swap_runes-Steady saved k (swap_far rl h far))
    ]
  where
    swap_far :
        (r : Shell) (h : History)
        → ltb_ℤ (checked r).1 (pos 2) ≡ false
        → ltb_ℤ (cursor (record (checked r).0 { history = h })).pos (pos 2) ≡ false
    swap_far r h far = rw checked-pos at far
