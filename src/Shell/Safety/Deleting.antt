-- ===== src/Shell/Safety/Deleting.antt =====
-- The commands of emacs.go that move and delete keep the state steady.
use readline.Base.{
  ◌≡◌, refl, not, ◌&&◌, some, [], ◌∷◌, Bool-cases, Option-cases, inl, inr, if◌then◌else◌,
}
use readline.Base.Int.{ℤ, pos, pos_part, eqb_ℤ, ◌-ℤ◌}
use readline.Core.Line.{len}
use readline.Core.Cursor.{Cursor, check_append, dec, insert_at}
use readline.Core.Cursor.Checks.{check_append-IsValid}
use readline.Core.Iterations.{Iterations, add}
use readline.Editor.Buffers.{active_content}
use readline.Shell.{
  Shell, line, cursor, with_cursor, checked, save_history, skip_save, count, times, is_emacs,
  is_vi_insert,
}
use readline.Shell.Sound.{
  IsSteady, IsSound, Steady, AlwaysSteady, cursor-IsSteady, skip_save-IsSteady, count-IsSteady,
  repeat-Steady, times-Steady, save_history-IsSound,
}
use readline.Shell.Steps.{
  checked-IsSteady, cut_under-Steady, end_of_line_append-some, beginning_of_line-some, saved-Steady,
}
use readline.Base.Int.{int_laws}
use readline.Core.Line.{cut_rune}
use readline.Core.Line.Edits.{cut_rune-ne-none}
use readline.Core.Cursor.{char, get_pos}
use readline.Core.Cursor.Motion.{index-some}
use readline.Core.Surround.{is_surround}
use readline.Strutil.Quotes.{surround_type}
use readline.Shell.Pairs.{autopair_delete}
use readline.Shell.Moving.{backward_char, beginning_of_line_command, end_of_line_command}
use readline.Shell.Changing.{
  cut_under, delete_char, delete_back, delete_pair, backward_delete_char,
  forward_backward_delete_char, tab_insert,
}
use readline.Shell.Killing.{yank_once, yank}

pub backward_char-Steady : AlwaysSteady backward_char
unfolding backward_char
backward_char-Steady rl s =
    times-Steady _ (λ r t. (_, refl, cursor-IsSteady r (dec (cursor r)) t)) (skip_save rl)
      (skip_save-IsSteady rl s)

iterations-IsSteady :
    (rl : Shell) (i : Iterations) → IsSteady rl → IsSteady (record rl { iterations = i })
iterations-IsSteady rl i s = record { no_surrounds = s.no_surrounds; kept = s.kept }

pub beginning_of_line_command-Steady : AlwaysSteady beginning_of_line_command
unfolding beginning_of_line_command
beginning_of_line_command-Steady rl s =
    let t = skip_save-IsSteady rl s in
    elim (Bool-cases (not (is_emacs (skip_save rl).main) && (skip_save rl).iterations.active)) [
      | inl e ↦
          let i = add (skip_save rl).iterations (b'0' ∷ []) in
          (
            record (skip_save rl) { iterations = i },
            rw e refl,
            iterations-IsSteady (skip_save rl) i t,
          )
      | inr e ↦
          let (c, there) = beginning_of_line-some (cursor (skip_save rl)) in
          (with_cursor (skip_save rl) c, rw (e, there) refl, cursor-IsSteady (skip_save rl) c t)
    ]

pub end_of_line_command-Steady : (rl : Shell) → IsSound rl → Steady (end_of_line_command rl)
unfolding end_of_line_command
end_of_line_command-Steady rl s =
    let (c, there) = end_of_line_append-some (cursor rl) s.valid in
    (
      skip_save (with_cursor rl c),
      rw there refl,
      skip_save-IsSteady (with_cursor rl c) (cursor-IsSteady rl c s.steady),
    )

pub delete_char-Steady : (rl : Shell) → IsSound rl → Steady (delete_char rl)
unfolding delete_char
delete_char-Steady rl s =
    saved-Steady (times cut_under) rl s
      (λ there t. times-Steady cut_under cut_under-Steady there t.steady)

pub delete_back-Steady : AlwaysSteady delete_back
unfolding delete_back
delete_back-Steady rl s =
    cut_under-Steady (with_cursor rl (dec (cursor rl))) (cursor-IsSteady rl (dec (cursor rl)) s)

autopair_delete-some : (c : Cursor) → (d : Cursor) × (autopair_delete c ≡ some d)
unfolding autopair_delete
autopair_delete-some c =
    let c' = check_append c in
    let v = check_append-IsValid c in
    elim (Bool-cases (eqb_ℤ c'.pos (pos 0))) [
      | inl first ↦ (c', rw first refl)
      | inr later ↦
          let (key, k) =
            index-some c'.line (c'.pos -ℤ pos 1) (grind (int_laws, later, v.pos_from))
              (grind (int_laws, later, v.pos_to)) in
          let (d, under) = char c' in
          elim (Bool-cases (not ((surround_type key).0 && is_surround key under))) [
            | inl alone ↦ (d, rw (later, k, alone) refl)
            | inr pair ↦ elim (Option-cases (cut_rune d.line d.pos)) [
              | inl e ↦ absurd ((cut_rune-ne-none d.line d.pos).0 e)
              | inr (l, e) ↦ (record d { line = l }, rw (later, k, pair, e) refl)
            ]
          ]
    ]

pub delete_pair-Steady : (n : ℤ) → AlwaysSteady (delete_pair n)
unfolding delete_pair
delete_pair-Steady n rl s = elim (Bool-cases (not (eqb_ℤ n (pos 1)))) [
  | inl many ↦ rw many (repeat-Steady delete_back (pos_part n) delete_back-Steady rl s)
  | inr one ↦ elim (Bool-cases (not rl.autopairs)) [
    | inl off ↦ rw (one, off) (delete_back-Steady rl s)
    | inr on ↦
        let (c, e) = autopair_delete-some (cursor rl) in
        rw (one, on, e) (delete_back-Steady (with_cursor rl c) (cursor-IsSteady rl c s))
  ]
]

pub first_save-Steady :
    (rl : Shell)
    → IsSound rl
    → Steady (if is_vi_insert rl.main then some (skip_save rl) else save_history rl)
first_save-Steady rl s = elim (Bool-cases (is_vi_insert rl.main)) [
  | inl i ↦ rw i (skip_save rl, refl, skip_save-IsSteady rl s.steady)
  | inr n ↦ rw n (let (there, e, sound) = save_history-IsSound rl s in (there, e, sound.steady))
]

pub backward_delete_char-Steady : (rl : Shell) → IsSound rl → Steady (backward_delete_char rl)
unfolding backward_delete_char
backward_delete_char-Steady rl s =
    let (saved, e, t) = first_save-Steady rl s in
    let there = (checked saved).0 in
    let steady = checked-IsSteady saved t in
    elim (Bool-cases (eqb_ℤ (checked saved).1 (pos 0))) [
      | inl first ↦ (there, rw (e, first) refl, steady)
      | inr later ↦
          rw (e, later)
            (delete_pair-Steady (count there).1 (count there).0 (count-IsSteady there steady))
    ]

pub checked-IsSound : (rl : Shell) → IsSteady rl → IsSound (checked rl).0
unfolding checked get_pos with_cursor cursor
checked-IsSound rl s = record {
  steady = checked-IsSteady rl s;
  valid = check_append-IsValid (cursor rl);
}

pub forward_backward_delete_char-Steady :
    (rl : Shell) → IsSound rl → Steady (forward_backward_delete_char rl)
unfolding forward_backward_delete_char
forward_backward_delete_char-Steady rl s =
    let there = (checked rl).0 in
    let t = checked-IsSound rl s.steady in
    elim (Bool-cases (eqb_ℤ (checked rl).1 (len (line there)))) [
      | inl end ↦ rw end (backward_delete_char-Steady there t)
      | inr inside ↦ rw inside (delete_char-Steady there t)
    ]

pub tab_insert-Steady : AlwaysSteady tab_insert
unfolding tab_insert
tab_insert-Steady rl s =
    (_, refl, skip_save-IsSteady _ (cursor-IsSteady rl (insert_at (cursor rl) (b'\t' ∷ [])) s))

pub yank-Steady : AlwaysSteady yank
unfolding yank yank_once
yank-Steady rl s =
    let (b, buf) = active_content rl.buffers in
    times-Steady (yank_once buf) (λ r t. (_, refl, cursor-IsSteady r (insert_at (cursor r) buf) t))
      (record rl { buffers = b }) (record { no_surrounds = s.no_surrounds; kept = s.kept })
