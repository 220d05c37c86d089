-- ===== src/Shell/Restoring/KillLine.antt =====
-- `killLine`, and `yank` behind it (emacs.go).
use readline.Base.{
  ℕ, zero, suc, ◌-◌, ◌≤◌, ◌<◌, ◌≡◌, ◌≢◌, refl, sym, ap, ◌∙◌, false, some, List, [], ◌∷◌, ◌++◌,
  length, take, drop, get_or, get_elem?, get_elem?_lt, is_empty, arith, length-append, length-take,
  length-drop, inl, inr,
}
use readline.Base.Int.{ℤ, pos, minus_one, eqb_ℤ, ◌-ℤ◌}
use readline.Core.Line.{Line, insert, check_pos_range}
use readline.Core.Cursor.{
  Cursor, check_append, on_empty_line, index, end_of_line_append, set_pos, insert_at,
}
use readline.Core.Cursor.Checks.{IsValid, check_append_id, set_pos-IsValid, set_pos_lem}
use readline.Core.Cursor.Command.{cursor_at}
use readline.Core.Search.Find.{start_of}
use readline.Core.Search.Hits.{find-HitAfter}
use readline.Core.Selection.{Selection, line_of}
use readline.Editor.Buffers.{Buffers, reset, write, active_content}
use readline.Editor.Buffers.Ring.{IsRing, write-IsRing}
use readline.Core.Iterations.{count_of, get}
use readline.Shell.{Shell, Unicode, line, cursor, with_cursor, checked, count, times, repeat}
use readline.Shell.Sound.{IsSound, save_history-history}
use readline.Shell.Killing.{
  store, kill_selection, kill_range, kill_to_end, kill_line, yank, yank_once, no_count,
}
use readline.Shell.Safety.Killing.{no_count-IsSound}
use readline.Shell.Safety.Vi.{checked-same, checked-pos}
use readline.Shell.Restoring.{NoNull, between, insert-between, cut-marked}

get_or-get_elem? : (l : Line) (i r : ℕ) → get_elem? l i ≡ some r → get_or l i 0 ≡ r
get_or-get_elem? [] i r e = cc
get_or-get_elem? (x ∷ xs) zero r e = ground (arith, e)
get_or-get_elem? (x ∷ xs) (suc i) r e = get_or-get_elem? xs i r e

inside_lt : (l : Line) (i r : ℕ) → get_elem? l i ≡ some r → i < length l
inside_lt [] i r e = cc
inside_lt (x ∷ xs) zero r e = omega arith
inside_lt (x ∷ xs) (suc i) r e = omega (arith, inside_lt xs i r e)

on_empty_line-rune :
    (i r : ℕ) (m : ℤ) (l : Line)
    → get_elem? l i ≡ some r
    → r ≢ b'\n'
    → IsValid (cursor_at i m l)
    → on_empty_line (cursor_at i m l) ≡ some false
unfolding on_empty_line index ◌-ℤ◌
on_empty_line-rune zero r m l e n v = ground (arith, inside_lt l 0 r e)
on_empty_line-rune (suc i) r m l e n v =
    let (before, b) = get_elem?_lt l i (omega (arith, inside_lt l (suc i) r e)) in
    ground (arith, inside_lt l (suc i) r e, b)

not_minus : (k : ℕ) → eqb_ℤ (pos k) minus_one ≡ false
not_minus k = ground arith

start_behind : (l : Line) (i : ℕ) → i < length l → i ≤ suc (start_of l (pos i -ℤ pos 1))
unfolding check_pos_range ◌-ℤ◌
start_behind l i h = ground arith

-- From a rune that is no newline, `EndOfLineAppend` goes forward.
end_of_line_append-behind :
    (i r : ℕ) (m : ℤ) (l : Line)
    → get_elem? l i ≡ some r
    → r ≢ b'\n'
    → IsValid (cursor_at i m l)
    → (e : ℕ) × (i < e)
      × (e ≤ length l)
      × (end_of_line_append (cursor_at i m l) ≡ some (cursor_at e m l))
unfolding end_of_line_append
end_of_line_append-behind i r m l e n v = elim (find-HitAfter l b'\n' (pos i -ℤ pos 1)) [
  | inl none_found ↦ (
    length l,
    inside_lt l i r e,
    omega arith,
    rw (on_empty_line-rune i r m l e n v, none_found)
        (ap some (check_append_id (cursor_at (length l) m l) (at_end (length l) (omega arith)))),
  )
  | inr (k, at, behind, within, here) ↦ (
    k,
    omega (arith, start_behind l i (inside_lt l i r e), other k here),
    omega arith,
    rw (on_empty_line-rune i r m l e n v, at, not_minus k)
        (ap some (check_append_id (cursor_at k m l) (at_end k (omega arith)))),
  )
]
  where
    at_end : (k : ℕ) → k ≤ length l → IsValid (cursor_at k m l)
    at_end k h = ground (arith, v)

    other : (k : ℕ) → get_or l k 0 ≡ b'\n' → k ≢ i
    other k here same =
        n (sym (get_or-get_elem? l i r e) ∙ ap (λ j. get_or l j 0) (sym same) ∙ here)

-- What a write of some text leaves is what `yank` reads.
write-active_content :
    (u : Unicode) (b : Buffers) (ws : List Line) (text : Line)
    → IsRing b ws
    → b.selected ≡ false
    → 0 < length text
    → (active_content (write u.is_letter u.to_lower b text)).1 ≡ text
unfolding active_content write reset
write-active_content u b ws [] k s h = absurd (omega arith)
write-active_content u b ws (x ∷ xs) k s h =
    (rw s refl) ∙ (write-IsRing u.is_letter u.to_lower b ws x xs k s).1

-- The state behind a kill of the runes from `i` to `e`, with the cursor in front of them.
record IsKilled (u : Unicode) (rl k : Shell) (i e : ℕ) : Type 0 where
  line_left : line k ≡ take i (line rl) ++ drop e (line rl)
  stored : k.buffers ≡ write u.is_letter u.to_lower rl.buffers (between (line rl) i e)
  no_argument : k.iterations ≡ rl.iterations
  at_start : (cursor k).pos ≡ pos i
  in_line : IsValid (cursor k)

pub full : (l : Line) → 0 < length l → is_empty l ≡ false
full [] h = absurd (omega arith)
full (x ∷ xs) h = refl

moved_valid :
    (c : Cursor) (i e : ℕ)
    → c.pos ≡ pos i
    → e ≤ length c.line
    → IsValid c
    → IsValid (cursor_at e c.mark c.line)
moved_valid c i e at h v = ground (arith, v)

set_pos-in : (c : Cursor) (i : ℕ) → i ≤ length c.line → (set_pos c (pos i)).pos ≡ pos i
unfolding set_pos check_append
set_pos-in c i h = ground arith

module _ (u : Unicode) (i : ℕ) where
  kill_to_end-behind :
      (rl : Shell) (e : ℕ)
      → IsSound rl
      → rl.selection.visual ≡ false
      → (cursor rl).pos ≡ pos i
      → i < e
      → e ≤ length (line rl)
      → end_of_line_append (cursor rl) ≡ some (cursor_at e (cursor rl).mark (line rl))
      → (k : Shell) × (kill_to_end u rl ≡ some k) × IsKilled u rl k i e
  unfolding kill_to_end kill_range kill_selection line line_of cursor with_cursor store
  kill_to_end-behind rl e s v at lt le eol =
      let c = rl.selection.cursor in
      let there : Selection = record rl.selection { cursor = cursor_at e c.mark c.line } in
      let (t, gone, left) =
        cut-marked there i e (omega arith) le (full c.line (omega arith)) v s.steady.no_surrounds in
      let position : (checked rl).1 ≡ pos i =
        checked-pos rl ∙ ap (λ x. (cursor x).pos) (checked-same rl s) ∙ at in
      let end_valid : check_append (cursor_at e c.mark c.line) ≡ cursor_at e c.mark c.line =
        check_append_id (cursor_at e c.mark c.line) (moved_valid c i e at le s.valid) in
      let fits : i ≤ length t.cursor.line = omega (
        arith,
        ap (λ (d : Cursor). length d.line) left,
        length-append {0} (take i c.line) (drop e c.line),
        length-take {0} i c.line,
      ) in
      (
        record rl {
          selection = record t { cursor = set_pos t.cursor (pos i) };
          buffers = write u.is_letter u.to_lower rl.buffers (between c.line i e);
        },
        rw (position, checked-same rl s, eol, end_valid, gone) refl,
        record {
          line_left = (set_pos_lem t.cursor (pos i)).0 ∙ ap (λ (d : Cursor). d.line) left;
          stored = refl;
          no_argument = refl;
          at_start = set_pos-in t.cursor i fits;
          in_line = set_pos-IsValid t.cursor (pos i);
        },
      )

  kill_to_end-IsKilled :
      (rl : Shell) (r : ℕ)
      → IsSound rl
      → rl.selection.visual ≡ false
      → (cursor rl).pos ≡ pos i
      → get_elem? (line rl) i ≡ some r
      → r ≢ b'\n'
      → (k : Shell) × (e : ℕ) × (kill_to_end u rl ≡ some k)
        × IsKilled u rl k i e
        × (i < e)
        × (e ≤ length (line rl))
  unfolding line line_of cursor
  kill_to_end-IsKilled rl r s v at here n =
      let c = rl.selection.cursor in
      let same : cursor_at i c.mark c.line ≡ c = cc in
      let within : i ≤ length c.line = omega (arith, inside_lt c.line i r here) in
      let (e, lt, le, eol) =
        end_of_line_append-behind i r c.mark c.line here n (moved_valid c i i at within s.valid) in
      let (k, gone, killed) =
        kill_to_end-behind rl e s v at lt le (ap end_of_line_append (sym same) ∙ eol) in
      (k, e, gone, killed, lt, le)

yank-line :
    (k : Shell) (i : ℕ)
    → IsValid (cursor k)
    → count_of k.iterations.times ≡ pos 1
    → (cursor k).pos ≡ pos i
    → (y : Shell) × (yank k ≡ some y)
      × (line y ≡ insert (line k) (pos i) (active_content k.buffers).1)
unfolding yank yank_once times repeat count get line line_of cursor with_cursor insert_at
yank-line k i v one at =
    let (b, buf) = active_content k.buffers in
    (
      with_cursor (record k { buffers = b; iterations = (get k.iterations).0 })
          (insert_at k.selection.cursor buf),
      rw one refl,
      rw (check_append_id k.selection.cursor v, at) refl,
    )

between_pos : (l : Line) (i j : ℕ) → i < j → j ≤ length l → 0 < length (between l i j)
between_pos l i j h k = omega (arith, length-take {0} (j - i) (drop i l), length-drop {0} i l)

cut_shorter : (l : Line) (i j : ℕ) → i < j → j ≤ length l → length (take i l ++ drop j l) < length l
cut_shorter l i j h k =
    omega (arith, length-append {0} (take i l) (drop j l), length-take {0} i l, length-drop {0} j l)

pub no_argument_count : count_of [] ≡ pos 1
unfolding count_of
no_argument_count = refl

module _ (u : Unicode) where
  -- In a sound state, with the cursor on a rune that is no newline, `killLine` shortens the line, and a
  -- `yank` behind it gives the line back. The conditions: no visual selection, no selected register, at
  -- most ten numbered registers in order, and no null rune in the line.
  pub kill_line-yank :
      (rl : Shell) (i r : ℕ) (ws : List Line)
      → IsSound rl
      → rl.selection.visual ≡ false
      → IsRing rl.buffers ws
      → rl.buffers.selected ≡ false
      → NoNull (line rl)
      → (cursor rl).pos ≡ pos i
      → get_elem? (line rl) i ≡ some r
      → r ≢ b'\n'
      → (k : Shell) × (y : Shell) × (kill_line u rl ≡ some k)
        × (length (line k) < length (line rl))
        × (yank k ≡ some y)
        × (line y ≡ line rl)
  unfolding kill_line no_count cursor line readline.Core.Iterations.reset
  kill_line-yank rl i r ws s v ring free plain at here n =
      let (h, e, t) = save_history-history (no_count rl) (no_count-IsSound u rl s) in
      let saved = record (no_count rl) { history = h } in
      let (k, e', gone, killed, lt, le) = kill_to_end-IsKilled u i saved r t v at here n in
      let text = between (line rl) i e' in
      let (y, back, restored) =
        yank-line k i killed.in_line (rw killed.no_argument no_argument_count) killed.at_start in
      let buf : (active_content k.buffers).1 ≡ text =
        ap (λ b. (active_content b).1) killed.stored
        ∙ write-active_content u rl.buffers ws text ring free (between_pos (line rl) i e' lt le) in
      (
        k,
        y,
        rw (e, full (line rl) (omega arith)) gone,
        rw killed.line_left (cut_shorter (line rl) i e' lt le),
        back,
        restored
            ∙ rw (killed.line_left, buf) (insert-between (line rl) i e' (omega arith) le plain),
      )
