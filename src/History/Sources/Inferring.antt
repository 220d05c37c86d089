-- ===== src/History/Sources/Inferring.antt =====
-- What is inferred from the history (internal/history/sources.go).
use readline.Base.{
  ℕ, suc, ◌+◌, ◌≤◌, ◌≡◌, refl, Bool, true, false, none, some, List, length, get_elem?, arith,
}
use readline.Base.Int.{ℤ, pos, ltb_ℤ, ◌+ℤ◌, ◌-ℤ◌, +ℤ-one, int_laws}
use readline.Base.Utf8.{to_bytes}
use readline.Core.Line.{Line}
use readline.History.Undo.{Source}
use readline.History.Names.{current}
use readline.History.Match.{match, is_match, needle}
use readline.History.Match.Newest.{get_line-beyond, step_back}
use readline.History.Sources.{History, with_current, infer_from, infer_next}

two_left :
    (n end : ℕ)
    → end ≡ suc (suc n)
    → 1 ≤ n
    → ltb_ℤ ((pos end -ℤ pos (suc n)) +ℤ pos 1) (pos end) ≡ true
two_left n end e one = grind int_laws

module _ (matches : List ℕ → List ℕ → Bool) where
  last_matches :
      (entries : List Line) (hpos : ℤ) (text line : Line) (n : ℕ)
      → length entries ≡ suc n
      → get_elem? entries n ≡ some line
      → is_match matches false (to_bytes text) line ≡ true
      → match matches entries hpos text none false false false ≡ some (some (line, pos n))
  unfolding match needle
  last_matches entries hpos text line n l e m =
      let step = step_back matches entries false (to_bytes text) n (suc n + 0 + 1) line e in
      let rounds : suc n + 0 + 2 ≡ suc (suc n + 0 + 1) = omega arith in
      rw (l, rounds) (rw m at step)

  -- If the newest line of the history begins with the line, and there are three lines at least, then
  -- the search for the line behind it reads beyond the history, and panics.
  pub infer_next-last :
      (h : History) (source : Source) (line : Line) (n : ℕ)
      → current h.sources ≡ some (some source)
      → length source.entries ≡ suc (suc (suc n))
      → get_elem? source.entries (suc (suc n)) ≡ some line
      → is_match matches false (to_bytes h.walking.cursor.line) line ≡ true
      → infer_next matches h ≡ none
  unfolding infer_next infer_from with_current
  infer_next-last h source line n c l e m =
      let found =
        last_matches source.entries h.walking.hpos h.walking.cursor.line line (suc (suc n)) l e m in
      let beyond = get_line-beyond source.entries (suc (suc (suc n))) (omega arith) (omega arith) in
      let at = +ℤ-one (suc (suc n)) in
      let inside : ltb_ℤ ((pos (length source.entries) -ℤ pos (suc (suc n))) +ℤ pos 1)
            (pos (length source.entries))
          ≡ true =
        two_left (suc n) (length source.entries) l (omega arith) in
      rw (c, infer_from, found, inside, at, beyond) refl
