-- ===== src/Core/Tokens/Back.antt =====
-- Where `Backward` goes (internal/core/line.go), in a line with one byte for each rune.
use readline.Base.{
  ℕ, zero, suc, ◌+◌, ◌-◌, ◌≤◌, ◌<◌, ◌≡◌, refl, sym, ap, ◌∙◌, Bool, false, some, List, [], ◌∷◌, ◌++◌,
  ◌==◌, if◌then◌else◌, length, take, drop, arith, append-nil, length-append, length-take,
  take-append-drop, append_assoc, get_elem?, get_elem?_lt, Bool-cases, inl, inr,
}
use readline.Base.Int.{ℤ, pos, pos_part, ◌+ℤ◌, ◌-ℤ◌, +ℤ_parts, -ℤ_parts, eq_of_parts}
use readline.Core.Line.{Line, check_pos_range}
use readline.Core.Tokens.{Split, bytes, tokenize, tokenize_space, backward}
use readline.Core.Tokens.Offsets.{joined, joined-append, bytes-append}
use readline.Core.Tokens.Found.{byte_at, IsTokens, tokenize-IsTokens}

back : (c x y : ℕ) → c ≡ y + x → pos c +ℤ (pos 0 -ℤ pos x) ≡ pos y
back c x y h =
    eq_of_parts (pos c +ℤ (pos 0 -ℤ pos x)) (pos y)
      (omega (arith, +ℤ_parts (pos c) (pos 0 -ℤ pos x), -ℤ_parts (pos 0) (pos x)))

joined-take :
    (i : ℕ) (xs : List Line) (x : Line)
    → get_elem? xs i ≡ some x
    → joined (take (suc i) xs) ≡ joined (take i xs) ++ x
unfolding joined
joined-take i [] x h = cc
joined-take zero (y ∷ xs) x h = let same : y ≡ x = cc in append-nil y ∙ same
joined-take (suc i) (y ∷ xs) x h =
    ap (y ++◌) (joined-take i xs x h) ∙ sym (append_assoc y (joined (take i xs)) x)

in_range :
    (line : Line) (cpos : ℕ)
    → cpos ≤ length line
    → pos_part (check_pos_range line (pos cpos)) ≡ cpos
unfolding check_pos_range
in_range line cpos h = ground arith

-- The start of the token at the cursor, or of the one in front of it.
pub token_start : Split → ℕ
token_start s = length (joined (take (if s.2 == 0 then s.1 - 1 else s.1) s.0))

module _ (rune_len : ℕ → ℕ) (positive : (r : ℕ) → 0 < rune_len r) where
  length-bytes : (s : Line) → length s ≤ bytes rune_len s
  unfolding bytes
  length-bytes [] = omega arith
  length-bytes (r ∷ s) = omega (arith, length-bytes s, positive r)

  -- A part of such a line is one as well.
  plain_part :
      (line u v : Line)
      → u ++ v ≡ line
      → bytes rune_len line ≡ length line
      → bytes rune_len u ≡ length u
  plain_part line u v e h =
      let both = ap (bytes rune_len) e in
      let same = ap length e in
      omega (
        arith,
        bytes-append rune_len positive u v,
        length-append u v,
        length-bytes u,
        length-bytes v,
      )

  byte_at-eq :
      (line : Line) (cpos : ℕ)
      → cpos ≤ length line
      → bytes rune_len line ≡ length line
      → byte_at rune_len line cpos ≡ cpos
  unfolding byte_at
  byte_at-eq line cpos b h =
      let part =
        plain_part line (take (suc cpos) line) (drop (suc cpos) line)
          (take-append-drop (suc cpos) line) h in
      let count = length-take (suc cpos) line in
      elim (Bool-cases (cpos == length line)) [
        | inl e ↦ let there : cpos ≡ length line = ground arith in rw (byte_at, e) (omega arith)
        | inr e ↦ let inside : cpos < length line = ground arith in rw (byte_at, e) (omega arith)
      ]

  start_bytes :
      (line : Line) (cpos k : ℕ) (s : Split)
      → IsTokens rune_len line cpos s
      → bytes rune_len line ≡ length line
      → bytes rune_len (joined (take k s.0)) ≡ length (joined (take k s.0))
  start_bytes line cpos k s t h =
      plain_part line (joined (take k s.0)) (joined (drop k s.0))
        (sym (joined-append (take k s.0) (drop k s.0))
          ∙ ap joined (take-append-drop k s.0)
          ∙ t.text)
        h

  backward-inside :
      (index at : ℕ) (x : Line) (split : List Line)
      → backward rune_len (x ∷ split, index, suc at) ≡ some (pos 0 -ℤ pos (suc at))
  unfolding backward
  backward-inside index at x split = ground arith

  backward-IsTokens :
      (line : Line) (cpos index at : ℕ) (split : List Line)
      → cpos ≤ length line
      → bytes rune_len line ≡ length line
      → IsTokens rune_len line cpos (split, index, at)
      → (d : ℤ) × (backward rune_len (split, index, at) ≡ some d)
        × (pos cpos +ℤ d ≡ pos (token_start (split, index, at)))
  unfolding backward token_start
  backward-IsTokens line cpos i at [] b h t = absurd (omega (arith, t.index))
  backward-IsTokens line cpos zero zero (x ∷ split) b h t =
      let there = byte_at-eq line cpos b h in
      let start = start_bytes line cpos 0 (x ∷ split, 0, 0) t h in
      (
        pos 0,
        refl,
        eq_of_parts (pos cpos +ℤ pos 0) (pos (length (joined [])))
            (omega (arith, +ℤ_parts (pos cpos) (pos 0), t.offset)),
      )
  backward-IsTokens line cpos (suc i) zero (x ∷ split) b h t =
      let (w, e) = get_elem?_lt (x ∷ split) i (omega (arith, t.index)) in
      let one : suc i - 1 ≡ i = omega arith in
      let later : (suc i == 0) ≡ false = ground arith in
      let there = byte_at-eq line cpos b h in
      let start = start_bytes line cpos i (x ∷ split, suc i, 0) t h in
      let front = ap (bytes rune_len) (joined-take i (x ∷ split) w e) in
      let sum = bytes-append rune_len positive (joined (take i (x ∷ split))) w in
      (
        pos 0 -ℤ pos (bytes rune_len w),
        rw (later, one, e) refl,
        rw one (
            back cpos (bytes rune_len w) (length (joined (take i (x ∷ split))))
              (omega (arith, t.offset))),
      )
  backward-IsTokens line cpos i (suc at) (x ∷ split) b h t =
      let later : (suc at == 0) ≡ false = ground arith in
      let there = byte_at-eq line cpos b h in
      let start = start_bytes line cpos i (x ∷ split, i, suc at) t h in
      (
        pos 0 -ℤ pos (suc at),
        backward-inside i at x split,
        rw later
            (back cpos (suc at) (length (joined (take i (x ∷ split)))) (omega (arith, t.offset))),
      )

  -- In a line that is not empty and has one byte for each rune, `Backward` never panics: by words or by
  -- blank words, it leads from a cursor in the line to the start of the token at the cursor, or to that
  -- of the token in front of it if the cursor is at the start of its own.
  pub backward-tokenize :
      (is_punct : ℕ → Bool) (r : ℕ) (line : Line) (cpos : ℕ)
      → bytes rune_len (r ∷ line) ≡ length (r ∷ line)
      → cpos ≤ length (r ∷ line)
      → ((d : ℤ) × (backward rune_len (tokenize rune_len is_punct (r ∷ line) (pos cpos)) ≡ some d)
          × (pos cpos +ℤ d ≡ pos (token_start (tokenize rune_len is_punct (r ∷ line) (pos cpos)))))
        × ((d : ℤ) × (backward rune_len (tokenize_space rune_len (r ∷ line) (pos cpos)) ≡ some d)
            × (pos cpos +ℤ d ≡ pos (token_start (tokenize_space rune_len (r ∷ line) (pos cpos)))))
  backward-tokenize is_punct r line cpos h b =
      let (words, blanks) = tokenize-IsTokens rune_len positive is_punct r line (pos cpos) in
      let at : pos_part (check_pos_range (r ∷ line) (pos cpos)) ≡ cpos =
        in_range (r ∷ line) cpos b in
      let s = tokenize rune_len is_punct (r ∷ line) (pos cpos) in
      let v = tokenize_space rune_len (r ∷ line) (pos cpos) in
      (
        backward-IsTokens (r ∷ line) cpos s.1 s.2 s.0 b h (rw at at words),
        backward-IsTokens (r ∷ line) cpos v.1 v.2 v.0 b h (rw at at blanks),
      )
