-- ===== src/Shell/Marks.antt =====
-- The mark of the cursor (emacs.go, vim.go): `setMark`, and `viKillLine`, which kills from it.
use readline.Base.{
  ℕ, ◌⊎◌, inl, inr, Bool-cases, if◌then◌else◌, ◌-◌, ◌≤◌, ◌<◌, ◌≡◌, refl, sym, ap, ◌∙◌, true, false,
  not, ◌||◌, some, [], ◌++◌, length, take, drop, arith, is_empty, drop_all, take_all, length-drop,
  append-nil,
}
use readline.Base.Int.{ℤ, pos, ltb_ℤ, eqb_ℤ, ◌-ℤ◌, int_laws}
use readline.Core.Line.{Line, len}
use readline.Core.Cursor.{Cursor, check_append, set_pos, set_mark, dec}
use readline.Core.Cursor.Checks.{IsValid}
use readline.Core.Selection.{Selection, line_of, mark_range, cut_selection}
use readline.Core.Cursor.Command.{cursor_at}
use readline.Shell.Panics.{at-IsValid}
use readline.Core.Iterations.{get}
use readline.Editor.Buffers.{write}
use readline.Shell.{Shell, Unicode, line, cursor, with_cursor, checked, count}
use readline.Shell.Sound.{IsSound, save_history-history}
use readline.Shell.Marking.{mark_at, set_mark_command}
use readline.Shell.Killing.{kill_selection, store}
use readline.Shell.ViChanging.{kill_from_mark, vi_kill_line}
use readline.Shell.Safety.Vi.{checked-same, checked-pos}
use readline.Shell.Restoring.KillLine.{no_argument_count, full}
use readline.Shell.Restoring.{cut-marked, between, marked, mark_range-marked}

set_pos-at :
    (i j : ℕ) (m : ℤ) (l : Line)
    → IsValid (cursor_at i m l)
    → j ≤ length l
    → set_pos (cursor_at i m l) (pos j) ≡ cursor_at j m l
unfolding set_pos check_append
set_pos-at i j m l v h = ground (arith, v)

set_mark-at :
    (i : ℕ) (m : ℤ) (l : Line)
    → IsValid (cursor_at i m l)
    → set_mark (cursor_at i m l) ≡ cursor_at i (pos i) l
unfolding set_mark check_append
set_mark-at i m l v = ground (arith, v)

marked-IsValid :
    (i j : ℕ) (l : Line) → i ≤ length l → j < length l → IsValid (cursor_at i (pos j) l)
marked-IsValid i j l h k = ground arith

-- A mark within the line is set, and the cursor stays.
mark_at-at :
    (i j : ℕ) (m : ℤ) (l : Line)
    → IsValid (cursor_at i m l)
    → i ≤ length l
    → j < length l
    → set_pos (set_mark (set_pos (cursor_at i m l) (pos j))) (pos i) ≡ cursor_at i (pos j) l
mark_at-at i j m l v h k =
    let there = at-IsValid i j m l v (omega arith) in
    ap (λ c. set_pos (set_mark c) (pos i)) (set_pos-at i j m l v (omega arith))
    ∙ ap (λ c. set_pos c (pos i)) (set_mark-at j m l there)
    ∙ set_pos-at j i (pos j) l (marked-IsValid j j l (omega arith) k) h

-- The mark and the position that a command leaves.
abbrev pub Leaves : Shell → ℤ → ℤ → Type 0
Leaves rl mark at = ((cursor rl).mark ≡ mark) × ((cursor rl).pos ≡ at)

Leaves-of :
    (c : Cursor) (i : ℕ) (m : ℤ) (l : Line) → c ≡ cursor_at i m l → (c.mark ≡ m) × (c.pos ≡ pos i)
Leaves-of c i m l e = (ap (λ (d : Cursor). d.mark) e, ap (λ (d : Cursor). d.pos) e)

set_mark_command-cases :
    (rl : Shell) (i : ℕ)
    → IsSound rl
    → 1 < length (line rl)
    → (cursor rl).pos ≡ pos i
    → (rl.iterations.active ≡ false
        → rl.iterations.times ≡ []
        → Leaves (set_mark_command rl) (pos 1) (pos i))
      × (rl.iterations.active ≡ true → Leaves (set_mark_command rl) (pos i) (pos i))
unfolding set_mark_command mark_at count get with_cursor cursor line line_of
set_mark_command-cases rl i s h at =
    let c = rl.selection.cursor in
    let same : c ≡ cursor_at i c.mark c.line = cc in
    let v : IsValid (cursor_at i c.mark c.line) = rw (← same) s.valid in
    let within : i ≤ length c.line = omega (arith, v.pos_to) in
    let position : (checked rl).1 ≡ pos i =
      checked-pos rl ∙ ap (λ x. (cursor x).pos) (checked-same rl s) ∙ at in
    let fits : ltb_ℤ (len c.line -ℤ pos 1) (pos 1) ≡ false = grind (int_laws, h) in
    (
      λ off none_typed.
          rw
            (
              set_mark_command,
              position,
              checked-same rl s,
              none_typed,
              no_argument_count,
              fits,
              off,
            )
            (Leaves-of (set_pos (set_mark (set_pos c (pos 1))) (pos i)) i (pos 1) c.line (
              ap (λ d. set_pos (set_mark (set_pos d (pos 1))) (pos i)) same
              ∙ mark_at-at i 1 c.mark c.line v within h)),
      λ on. rw on (
          Leaves-of (set_mark c) i (pos i) c.line
            (ap set_mark same ∙ set_mark-at i c.mark c.line v)),
    )

dec-pos : (c : Cursor) (i : ℕ) → c.pos ≡ pos i → 0 < i → dec c ≡ record c { pos = pos (i - 1) }
unfolding dec ◌-ℤ◌
dec-pos c i e h = ground arith

front : (l : Line) (j : ℕ) → take j l ++ drop (length l) l ≡ take j l
front l j = rw (drop_all (length l) l (omega arith)) (append-nil (take j l))

behind : (l : Line) (j : ℕ) → between l j (length l) ≡ drop j l
behind l j = take_all (length l - j) (drop j l) (omega (arith, length-drop {0} j l))

-- Without a numeric argument `setMark` puts the mark at position 1, wherever the cursor is, and with
-- one it puts the mark at the cursor, whatever the argument is; the cursor stays. The state is
-- to be sound, and the line to have at least two runes.
pub set_mark_command_lem :
    (rl : Shell) (i : ℕ)
    → IsSound rl
    → 1 < length (line rl)
    → (cursor rl).pos ≡ pos i
    → (rl.iterations.active ≡ true) ⊎ (rl.iterations.times ≡ [])
    → Leaves (set_mark_command rl) (if rl.iterations.active then pos i else pos 1) (pos i)
set_mark_command_lem rl i s h at given =
    let (unset, active) = set_mark_command-cases rl i s h at in
    elim (Bool-cases rl.iterations.active) [
      | inl on ↦
          let (mark, there) = active on in
          (mark ∙ sym (ap (λ b. if b then pos i else pos 1) on), there)
      | inr off ↦ elim given [
        | inl on ↦ absurd (grind arith)
        | inr none_typed ↦
            let (mark, there) = unset off none_typed in
            (mark ∙ sym (ap (λ b. if b then pos i else pos 1) off), there)
      ]
    ]

module _ (u : Unicode) where
  kill_from_mark-at :
      (rl : Shell) (i j : ℕ)
      → IsSound rl
      → rl.selection.visual ≡ false
      → (cursor rl).pos ≡ pos i
      → (cursor rl).mark ≡ pos j
      → j < i
      → i ≤ length (line rl)
      → (k : Shell) × (kill_from_mark u rl ≡ some k)
        × (line k ≡ take j (line rl))
        × (k.buffers ≡ write u.is_letter u.to_lower rl.buffers (drop j (line rl)))
  unfolding kill_from_mark kill_selection store cursor line line_of
  kill_from_mark-at rl i j s v at set h n =
      let c = rl.selection.cursor in
      let l = c.line in
      let end = length l in
      let there : Selection = record rl.selection { cursor = record c { pos = pos (i - 1) } } in
      let from : is_empty l ≡ false = full l (omega arith) in
      let le : j ≤ end = omega arith in
      let all : end ≤ end = omega arith in
      let (r, gone, left) = cut-marked there j end le all from v s.steady.no_surrounds in
      let same : mark_range rl.selection c.mark (pos end) ≡ marked rl.selection j end le all from =
        ap (λ m. mark_range rl.selection m (pos end)) set
        ∙ mark_range-marked rl.selection j end le all from in
      let cut_there : cut_selection (marked there j end le all from) ≡ some (r, between l j end) =
        sym (ap cut_selection (mark_range-marked there j end le all from)) ∙ gone in
      (
        record rl {
          selection = r;
          buffers = write u.is_letter u.to_lower rl.buffers (between l j end);
        },
        rw (same, dec-pos c i at (omega arith), cut_there) refl,
        ap (λ (d : Cursor). d.line) left ∙ front l j,
        ap (write u.is_letter u.to_lower rl.buffers) (behind l j),
      )

  -- With the cursor behind the mark, `viKillLine` kills all runes from the mark to the end of the
  -- buffer, those behind the cursor too, and writes them to the registers. The state is to be sound,
  -- without a visual selection.
  pub vi_kill_line_lem :
      (rl : Shell) (i j : ℕ)
      → IsSound rl
      → rl.selection.visual ≡ false
      → (cursor rl).pos ≡ pos i
      → (cursor rl).mark ≡ pos j
      → j < i
      → (k : Shell) × (vi_kill_line u rl ≡ some k)
        × (line k ≡ take j (line rl))
        × (k.buffers ≡ write u.is_letter u.to_lower rl.buffers (drop j (line rl)))
  unfolding vi_kill_line line line_of cursor
  vi_kill_line_lem rl i j s v at set h =
      let (hist, e, t) = save_history-history rl s in
      let n : i ≤ length rl.selection.cursor.line = ground (arith, s.valid.pos_to, at) in
      let position : (checked rl).1 ≡ pos i =
        checked-pos rl ∙ ap (λ x. (cursor x).pos) (checked-same rl s) ∙ at in
      let kills : (not (ltb_ℤ (cursor rl).mark (pos i)) || eqb_ℤ (pos i) (pos 0)) ≡ false =
        ground (arith, set, h) in
      rw (position, checked-same rl s, kills, e)
        (kill_from_mark-at (record rl { history = hist }) i j t v at set h n)
