-- ===== src/Shell/Steps.antt =====
-- The steps that the commands share, on a steady state (internal/core, and internal/editor/buffers.go).
use readline.Base.{
  ◌≡◌, refl, Bool, true, false, ◌||◌, Option, none, some, [], sym, ◌∙◌, arith, is_empty, Bool-cases,
  Option-cases, inl, inr, ◌>>=◌, if◌then◌else◌,
}
use readline.Base.Int.{ℤ, pos, minus_one, eqb_ℤ, ◌-ℤ◌}
use readline.Core.Line.{Line, len, cut, cut_rune}
use readline.Core.Cursor.{Cursor, get_pos, check_append}
use readline.Core.Selection.{
  Selection, line_of, with_line, check_selection_range, select_to_cursor, with_final, range_of,
  range, selected, kept_areas, reset, cut_selected, cut_selection, mark_range,
}
use readline.Core.Line.Edits.{cut_rune-ne-none}
use readline.Core.Search.{find}
use readline.Core.Cursor.{end_of_line_append, beginning_of_line, on_empty_line}
use readline.Core.Cursor.Checks.{IsValid}
use readline.Core.Cursor.Command.{check_command_lem}
use readline.Core.Cursor.Motion.{on_empty_line-eq-none}
use readline.Shell.{Command, Shell, Unicode, line, cursor, with_buffer, checked, save_history}
use readline.Shell.Sound.{
  IsSteady, IsSound, Steady, AlwaysSteady, cursor-IsSteady, save_history-IsSound,
}
use readline.Shell.Changing.{cut_under}
use readline.Shell.Killing.{store, kill_selection, kill_range}
use readline.Core.Selection.Cuts.{cut_selection-IsCut, cut_selection-cut_selected}

range_of-surrounds : (s : Selection) (x : ℤ × ℤ × Bool) → (range_of s x).0.surrounds ≡ s.surrounds
unfolding range_of with_final select_to_cursor get_pos check_append
range_of-surrounds s (b, e, false) = refl
range_of-surrounds s (b, e, true) = ground arith

range-surrounds : (s : Selection) → (range s).0.surrounds ≡ s.surrounds
unfolding range
range-surrounds s =
    ground (arith, range_of-surrounds s (check_selection_range (line_of s) s.bpos s.epos))

pub reset-surrounds : (s : Selection) → s.surrounds ≡ [] → (reset s).surrounds ≡ []
unfolding reset kept_areas
reset-surrounds s e = rw e refl

selected-surrounds :
    (s : Selection) (r : Selection × Line)
    → selected s ≡ some r
    → s.surrounds ≡ []
    → r.0.surrounds ≡ []
unfolding selected
selected-surrounds s r e n = ground (arith, range-surrounds s)

-- The end of `cut_selected`, behind the text.
cut_of-surrounds :
    (s : Selection) (l : Option Line) (text : Line) (r : Selection × Line)
    → (l >>= λ rest. some (reset (with_line s rest), text)) ≡ some r
    → s.surrounds ≡ []
    → r.0.surrounds ≡ []
unfolding with_line
cut_of-surrounds s none text r e n = cc
cut_of-surrounds s (some rest) text r e n =
    let done = reset-surrounds (with_line s rest) n in ground (arith, done)

text_of-surrounds :
    (o : Option (Selection × Line)) (b e : ℤ) (r : Selection × Line)
    → (o >>= λ x. cut (line_of x.0) b e >>= λ rest. some (reset (with_line x.0 rest), x.1)) ≡ some r
    → ((x : Selection × Line) → o ≡ some x → x.0.surrounds ≡ [])
    → r.0.surrounds ≡ []
text_of-surrounds none b e r h k = cc
text_of-surrounds (some x) b e r h k =
    cut_of-surrounds x.0 (cut (line_of x.0) b e) x.1 r h (k x refl)

cut_selected-surrounds :
    (s : Selection) (r : Selection × Line)
    → cut_selected s ≡ some r
    → s.surrounds ≡ []
    → r.0.surrounds ≡ []
unfolding cut_selected
cut_selected-surrounds s r e n =
    let same = range-surrounds s ∙ n in
    elim (Bool-cases (eqb_ℤ (range s).1 minus_one || eqb_ℤ (range s).2 minus_one)) [
      | inl none_set ↦
          let done = reset-surrounds (range s).0 same in
          let at : some (reset (range s).0, []) ≡ some r = rw none_set at e in
          ground (arith, done, at)
      | inr both_set ↦
          text_of-surrounds (selected (range s).0) (range s).1 (range s).2 r (rw both_set at e)
            (λ x f. selected-surrounds (range s).0 x f same)
    ]

cut_empty-surrounds :
    (s : Selection) (r : Selection × Line)
    → cut_selection s ≡ some r
    → is_empty (line_of s) ≡ true
    → s.surrounds ≡ []
    → r.0.surrounds ≡ []
unfolding cut_selection
cut_empty-surrounds s r e empty n =
    let at : some (s, []) ≡ some r = rw empty at e in ground (arith, at)

-- `Cut` returns, and leaves no surround selections.
pub cut_selection-surrounds :
    (s : Selection)
    → s.surrounds ≡ []
    → (r : Selection × Line) × (cut_selection s ≡ some r) × (r.0.surrounds ≡ [])
cut_selection-surrounds s n =
    let (r, e, taken) = cut_selection-IsCut s n in
    (
      r,
      e,
      elim (Bool-cases (is_empty (line_of s))) [
        | inl empty ↦ cut_empty-surrounds s r e empty n
        | inr full ↦ cut_selected-surrounds s r (sym (cut_selection-cut_selected s full n) ∙ e) n
      ],
    )

-- The steps of a shell that is steady.
pub checked-IsSteady : (rl : Shell) → IsSteady rl → IsSteady (checked rl).0
unfolding checked get_pos
checked-IsSteady rl s = cursor-IsSteady rl (check_append (cursor rl)) s

pub buffer-IsSteady : (rl : Shell) (l : Line) → IsSteady rl → IsSteady (with_buffer rl l)
unfolding with_buffer with_line
buffer-IsSteady rl l s = record { no_surrounds = s.no_surrounds; kept = s.kept }

pub selection-IsSteady :
    (rl : Shell) (t : Selection)
    → t.surrounds ≡ []
    → IsSteady rl
    → IsSteady (record rl { selection = t })
selection-IsSteady rl t e s = record { no_surrounds = e; kept = s.kept }

pub store-IsSteady :
    (u : Unicode) (rl : Shell) (text : Line) → IsSteady rl → IsSteady (store u rl text)
unfolding store
store-IsSteady u rl text s = record { no_surrounds = s.no_surrounds; kept = s.kept }

pub mark_range-surrounds : (s : Selection) (b e : ℤ) → (mark_range s b e).surrounds ≡ s.surrounds
unfolding mark_range
mark_range-surrounds s b e = ground arith

pub cut_under-Steady : AlwaysSteady cut_under
unfolding cut_under
cut_under-Steady rl s =
    let there = (checked rl).0 in
    elim (Option-cases (cut_rune (line there) (checked rl).1)) [
      | inl e ↦ absurd ((cut_rune-ne-none (line there) (checked rl).1).0 e)
      | inr (l, e) ↦
          (with_buffer there l, rw e refl, buffer-IsSteady there l (checked-IsSteady rl s))
    ]

pub kill_selection-Steady : (u : Unicode) → AlwaysSteady (kill_selection u)
unfolding kill_selection
kill_selection-Steady u rl s =
    let (r, e, n) = cut_selection-surrounds rl.selection s.no_surrounds in
    (
      store u (record rl { selection = r.0 }) r.1,
      rw e refl,
      store-IsSteady u (record rl { selection = r.0 }) r.1 (selection-IsSteady rl r.0 n s),
    )

pub kill_range-Steady :
    (u : Unicode) (rl : Shell) (b e : ℤ) → IsSteady rl → Steady (kill_range u rl b e)
unfolding kill_range
kill_range-Steady u rl b e s =
    kill_selection-Steady u _
      (selection-IsSteady rl _ (mark_range-surrounds rl.selection b e ∙ s.no_surrounds) s)

-- Within the line, the two ends of it can be reached.
pub end_of_line_append-some :
    (c : Cursor) → IsValid c → (d : Cursor) × (end_of_line_append c ≡ some d)
unfolding end_of_line_append
end_of_line_append-some c v = elim (Option-cases (on_empty_line c)) [
  | inl e ↦ absurd (ground (arith, (on_empty_line-eq-none c).0 e))
  | inr (true, e) ↦ (check_append c, rw e refl)
  | inr (false, e) ↦
      let newline_pos = find c.line b'\n' (c.pos -ℤ pos 1) true in
      let target = if eqb_ℤ newline_pos minus_one then len c.line else newline_pos in
      (check_append (record c { pos = target }), rw e refl)
]

pub beginning_of_line-some : (c : Cursor) → (d : Cursor) × (beginning_of_line c ≡ some d)
unfolding beginning_of_line
beginning_of_line-some c = let found = check_command_lem _ in (found.0, found.1)

-- A step that is followed by a change of the cursor.
pub map-Steady :
    (o : Option Shell) (f : Shell → Shell)
    → Steady o
    → ((rl : Shell) → IsSteady rl → IsSteady (f rl))
    → Steady (o >>= λ rl. some (f rl))
map-Steady o f (rl, e, s) keeps = (f rl, rw e refl, keeps rl s)

-- A command that begins with a save.
pub saved-Steady :
    (f : Command) (rl : Shell)
    → IsSound rl
    → ((there : Shell) → IsSound there → Steady (f there))
    → Steady (save_history rl >>= f)
saved-Steady f rl s keeps =
    let (there, e, sound) = save_history-IsSound rl s in rw e (keeps there sound)
