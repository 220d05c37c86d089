-- ===== src/Shell/Transposing.antt =====
-- The swap of two runes, `transposeChars` (emacs.go).
use readline.Base.{
  ℕ, suc, ◌+◌, ◌≤◌, ◌<◌, ◌≡◌, ◌⊎◌, inl, inr, refl, sym, ap, ◌∙◌, true, false, ◌||◌, some, [], ◌∷◌,
  ◌++◌, length, set, get_elem?, get_elem?-append, length-append, length-set, arith, ltb,
}
use readline.Base.Int.{ℤ, pos, ltb_ℤ, eqb_ℤ, ◌-ℤ◌}
use readline.Core.Line.{Line, len}
use readline.Core.Cursor.{char, index, replace_with}
use readline.Core.Cursor.Checks.{IsValid, check_append_id}
use readline.Core.Cursor.Command.{cursor_at, char_lem}
use readline.Core.Selection.{line_of, with_line}
use readline.Shell.{Shell, line, cursor, with_cursor, with_buffer, checked}
use readline.Shell.Sound.{IsSound, save_history-history}
use readline.Shell.Changing.{swap_last, swap_around, swap_runes, transpose_chars}
use readline.Shell.Safety.Vi.{checked-same, checked-pos}

set-first : (a b : Line) (x v : ℕ) → set (a ++ x ∷ b) (length a) v ≡ a ++ v ∷ b
set-first [] b x v = refl
set-first (y ∷ a) b x v = ap (y ∷◌) (set-first a b x v)

set-second : (a b : Line) (x y v : ℕ) → set (a ++ x ∷ (y ∷ b)) (suc (length a)) v ≡ a ++ x ∷ (v ∷ b)
set-second [] b x y v = refl
set-second (z ∷ a) b x y v = ap (z ∷◌) (set-second a b x y v)

pub get-second : (a b : Line) (x y : ℕ) → get_elem? (a ++ x ∷ (y ∷ b)) (suc (length a)) ≡ some y
get-second [] b x y = refl
get-second (z ∷ a) b x y = get-second a b x y

-- What a swap makes of a shell.
pub record IsSwapped (rl k : Shell) (a b : Line) (x y : ℕ) : Type 0 where
  pub new_line : line k ≡ a ++ y ∷ (x ∷ b)
  pub same_pos : (cursor k).pos ≡ (cursor rl).pos

pub back : (n i k : ℕ) → i ≡ n + k → pos i -ℤ pos k ≡ pos n
unfolding ◌-ℤ◌
back n i k e = ground arith

pub index-at : (l : Line) (i r : ℕ) → get_elem? l i ≡ some r → index l (pos i) ≡ some r
unfolding index
index-at l i r e = ground (arith, e)

replace_with-at :
    (i x : ℕ) (m : ℤ) (l : Line)
    → IsValid (cursor_at i m l)
    → i < length l
    → replace_with (cursor_at i m l) x ≡ cursor_at i m (set l i x)
unfolding replace_with
replace_with-at i x m l v h =
    let there = check_append_id (cursor_at i m l) v in ground (arith, there, h)

pub set-IsValid :
    (i j v : ℕ) (m : ℤ) (l : Line) → IsValid (cursor_at i m l) → IsValid (cursor_at i m (set l j v))
set-IsValid i j v m l h = ground (arith, h, length-set l j v)

module _ (rl : Shell) (a b : Line) (x y : ℕ) (split : line rl ≡ a ++ x ∷ (y ∷ b)) where
  first_rune : get_elem? (line rl) (length a) ≡ some x
  first_rune = rw split (get_elem?-append a (y ∷ b) x (length a) refl)

  second_rune : get_elem? (line rl) (suc (length a)) ≡ some y
  second_rune = rw split (get-second a b x y)

  swapped_line : set (set (line rl) (length a) y) (suc (length a)) x ≡ a ++ y ∷ (x ∷ b)
  swapped_line = rw (split, set-first a (y ∷ b) x y) (set-second a b y y x)

  swap_last-IsSwapped :
      (i : ℕ)
      → i ≡ length a + 2
      → (k : Shell) × (swap_last rl (pos i) ≡ some k) × IsSwapped rl k a b x y
  unfolding swap_last with_buffer with_line line line_of cursor
  swap_last-IsSwapped i at =
      let l = rl.selection.cursor.line in
      let one = back (suc (length a)) i 1 (omega arith) in
      let two = back (length a) i 2 at in
      (
        with_buffer rl (set (set l (length a) y) (suc (length a)) x),
        rw (one, two, index-at l (suc (length a)) y second_rune, index-at l (length a) x first_rune)
            refl,
        record { new_line = swapped_line; same_pos = refl },
      )

  swap_around-IsSwapped :
      (i : ℕ)
      → IsSound rl
      → (cursor rl).pos ≡ pos i
      → i ≡ length a + 1
      → (k : Shell) × (swap_around rl (pos i) ≡ some k) × IsSwapped rl k a b x y
  unfolding swap_around with_cursor line line_of cursor
  swap_around-IsSwapped i s at here =
      let c = rl.selection.cursor in
      let l = c.line in
      let same : c ≡ cursor_at i c.mark l = cc in
      let v : IsValid (cursor_at i c.mark l) = rw (← same) s.valid in
      let next : i ≡ suc (length a) = omega arith in
      let read : char c ≡ (cursor_at i c.mark l, y) =
        ap char same ∙ char_lem i y c.mark l v (ap (get_elem? l) next ∙ second_rune) in
      let l' = set l (length a) y in
      let fits : i < length l' = omega (arith, length-set l (length a) y, inside l x y split) in
      let replaced = replace_with-at i x c.mark l' (set-IsValid i (length a) y c.mark l v) fits in
      let one = back (length a) i 1 here in
      (
        with_cursor rl (cursor_at i c.mark (set l' i x)),
        rw (read, one, index-at l (length a) x first_rune, replaced) refl,
        record { new_line = ap (λ j. set l' j x) next ∙ swapped_line; same_pos = sym at },
      )
    where
      inside : (l : Line) (p q : ℕ) → l ≡ a ++ p ∷ (q ∷ b) → suc (length a) < length l
      inside l p q e = omega (arith, ap length e, length-append {0} a (p ∷ (q ∷ b)))

  split_length : length (line rl) ≡ length a + 2 + length b
  split_length = omega (arith, ap length split, length-append {0} a (x ∷ (y ∷ b)))

  swap_runes-IsSwapped :
      (i : ℕ)
      → IsSound rl
      → (cursor rl).pos ≡ pos i
      → ((i ≡ length a + 2) × (length b ≡ 0)) ⊎ (i ≡ length a + 1)
      → (k : Shell) × (swap_runes rl (pos i) ≡ some k) × IsSwapped rl k a b x y
  unfolding swap_runes
  swap_runes-IsSwapped i s at (inl (here, last)) =
      let end : eqb_ℤ (pos i) (len (line rl)) ≡ true = ground (arith, split_length) in
      rw end (swap_last-IsSwapped i here)
  swap_runes-IsSwapped i s at (inr here) =
      let inside : eqb_ℤ (pos i) (len (line rl)) ≡ false = ground (arith, split_length) in
      rw inside (swap_around-IsSwapped i s at here)

-- `transposeChars` swaps two runes that stand side by side, and the cursor stays: the last two if the
-- cursor is at the end of the line, and else the one in front of the cursor and the one under it. The
-- state is to be sound, and the position at least 2.
pub transpose_chars-IsSwapped :
    (rl : Shell) (a b : Line) (x y i : ℕ)
    → IsSound rl
    → line rl ≡ a ++ x ∷ (y ∷ b)
    → (cursor rl).pos ≡ pos i
    → 2 ≤ i
    → ((i ≡ length a + 2) × (length b ≡ 0)) ⊎ (i ≡ length a + 1)
    → (k : Shell) × (transpose_chars rl ≡ some k) × IsSwapped rl k a b x y
unfolding transpose_chars line line_of cursor
transpose_chars-IsSwapped rl a b x y i s split at far place =
    let (h, e, t) = save_history-history rl s in
    let saved = record rl { history = h } in
    let position : (checked rl).1 ≡ pos i =
      checked-pos rl ∙ ap (λ r. (cursor r).pos) (checked-same rl s) ∙ at in
    let later : (checked saved).1 ≡ pos i =
      checked-pos saved ∙ ap (λ r. (cursor r).pos) (checked-same saved t) ∙ at in
    let goes : (ltb_ℤ (pos i) (pos 2) || ltb (length (line rl)) 2) ≡ false =
      ground (arith, split_length rl a b x y split) in
    rw (position, checked-same rl s, goes, e, later, checked-same saved t)
      (let (k, done, swapped) = swap_runes-IsSwapped saved a b x y split i t at place in
        (k, done, record { new_line = swapped.new_line; same_pos = swapped.same_pos }))
