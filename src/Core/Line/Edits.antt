-- ===== src/Core/Line/Edits.antt =====
-- What `Insert`, `InsertBetween`, `Cut` and `CutRune` of internal/core/line.go do to a line.
use readline.Base.{
  ℕ, zero, suc, ◌+◌, ◌-◌, ◌≤◌, ◌<◌, ◌≡◌, refl, sym, ap, ◌∙◌, ◌⊎◌, inl, inr, ◌↔◌, ◌≢◌, none, some,
  ◌++◌, arith, length, get_or, take, drop, length-append, length-take, length-drop, take_all,
  take-append, drop-append, take-append-drop, append_assoc, append-nil, drop_all, dec_lt,
}
use readline.Base.Int.{ℤ, pos, pos_part, minus_one, ◌≤ℤ◌, ◌<ℤ◌}
use readline.Core.Line.{Line, len, insert_slice, end_of, insert, insert_between, cut, cut_rune}

-- The last rune of a text, if there is one, is not null.
abbrev pub NoNullEnd : Line → Type 0
NoNullEnd chars = (e : ℕ) → suc e ≡ length chars → get_or chars e 1 ≢ 0

end_of-NoNullEnd : (chars : Line) (n : ℕ) → n ≡ length chars → NoNullEnd chars → end_of chars n ≡ n
unfolding end_of
end_of-NoNullEnd chars zero h k = refl
end_of-NoNullEnd chars (suc e) h k = ground (arith, k e h)

end_of-le : (chars : Line) (n : ℕ) → end_of chars n ≤ n
unfolding end_of
end_of-le chars zero = omega arith
end_of-le chars (suc e) = ground (arith, end_of-le chars e)

pub kept_all : (chars : Line) → NoNullEnd chars → take (end_of chars (length chars)) chars ≡ chars
kept_all chars k = take_all _ chars (omega (arith, end_of-NoNullEnd chars (length chars) refl k))

-- A text with no null rune at its end is inserted whole, and in front of and behind it stands what
-- stood there before.
pub insert_lem :
    (l chars : Line) (i : ℕ)
    → i ≤ length l
    → NoNullEnd chars
    → insert l (pos i) chars ≡ take i l ++ (chars ++ drop i l)
unfolding insert
insert_lem l chars i h k = ground (arith, kept_all chars k)

-- An invalid position leaves the line as it is.
pub insert_invalid :
    (l chars : Line) (at : ℤ) → (at <ℤ pos 0) ⊎ (len l <ℤ at) → insert l at chars ≡ l
unfolding insert
insert_invalid l chars at h = ground arith

pub length-insert :
    (l chars : Line) (i : ℕ)
    → i ≤ length l
    → NoNullEnd chars
    → length (insert l (pos i) chars) ≡ length l + length chars
length-insert l chars i h k = rw (insert_lem l chars i h k) (
    omega (
      arith,
      length-append {0} (take i l) (chars ++ drop i l),
      length-append {0} chars (drop i l),
      length-take {0} i l,
      length-drop {0} i l,
    ))

-- A valid range is cut out, whichever of its ends is given first.
pub cut_range :
    (l : Line) (i j : ℕ)
    → i ≤ j
    → j ≤ length l
    → (cut l (pos i) (pos j) ≡ some (take i l ++ drop j l))
      × (cut l (pos j) (pos i) ≡ some (take i l ++ drop j l))
unfolding cut
cut_range l i j h k = ground arith

-- `Cut` panics exactly if the begin position is behind the end of the line, or the end position is
-- below -1.
cut-eq-none : (l : Line) (b e : ℤ) → (cut l b e ≡ none) ↔ ((e <ℤ minus_one) ⊎ (len l <ℤ b))
unfolding cut
cut-eq-none l b e = ground arith

insert_between-eq-none :
    (l chars : Line) (b e : ℤ)
    → (insert_between l b e chars ≡ none) ↔ ((e <ℤ minus_one) ⊎ ((len l <ℤ b) × (minus_one <ℤ e)))
unfolding insert_between
insert_between-eq-none l chars b e = ground arith

-- Cutting what was inserted gives the line back.
cut-insert :
    (l chars : Line) (i : ℕ)
    → i ≤ length l
    → NoNullEnd chars
    → cut (insert l (pos i) chars) (pos i) (pos (i + length chars)) ≡ some l
cut-insert l chars i h k =
    (cut_range (insert l (pos i) chars) i (i + length chars) (omega arith)
      (omega (arith, length-insert l chars i h k))).0
    ∙ rw (before, behind, take-append-drop i l) refl
  where
    front : length (take i l) ≡ i
    front = omega (arith, length-take {0} i l)

    whole : take i l ++ (chars ++ drop i l) ≡ (take i l ++ chars) ++ drop i l
    whole = sym (append_assoc (take i l) chars (drop i l))

    behind : drop (i + length chars) (insert l (pos i) chars) ≡ drop i l
    behind =
        rw (insert_lem l chars i h k, whole)
          (drop-append (i + length chars) (take i l ++ chars) (drop i l)
            (omega (arith, front, length-append {0} (take i l) chars)))

    before : take i (insert l (pos i) chars) ≡ take i l
    before = rw (insert_lem l chars i h k) (take-append i (take i l) _ (sym front))

insert_between_opened :
    (l chars : Line) (i j : ℕ)
    → i ≤ j
    → j ≤ length l
    → (insert_between l (pos i) (pos j) chars ≡ some (insert (take i l ++ drop j l) (pos i) chars))
      × (insert_between l (pos j) (pos i) chars
          ≡ some (insert (take i l ++ drop j l) (pos i) chars))
unfolding insert_between
insert_between_opened l chars i j h k = ground arith

-- A valid range is replaced by the text, whichever of its ends is given first, as long as the text
-- ends in no null rune.
insert_between_range :
    (l chars : Line) (i j : ℕ)
    → i ≤ j
    → j ≤ length l
    → NoNullEnd chars
    → (insert_between l (pos i) (pos j) chars ≡ some (take i l ++ (chars ++ drop j l)))
      × (insert_between l (pos j) (pos i) chars ≡ some (take i l ++ (chars ++ drop j l)))
insert_between_range l chars i j h k n = (opened.0 ∙ replaced, opened.1 ∙ replaced)
  where
    rest : Line
    rest = take i l ++ drop j l

    front : length (take i l) ≡ i
    front = omega (arith, length-take {0} i l)

    fits : i ≤ length rest
    fits = omega (arith, front, length-append {0} (take i l) (drop j l))

    opened :
        (insert_between l (pos i) (pos j) chars ≡ some (insert rest (pos i) chars))
        × (insert_between l (pos j) (pos i) chars ≡ some (insert rest (pos i) chars))
    opened = insert_between_opened l chars i j h k

    replaced : some (insert rest (pos i) chars) ≡ some (take i l ++ (chars ++ drop j l))
    replaced = ap some (
        insert_lem rest chars i fits n
        ∙ rw
            (
              take-append i (take i l) (drop j l) (sym front),
              drop-append i (take i l) (drop j l) (sym front),
            )
            refl)

pub cut_rune_inside :
    (l : Line) (i : ℕ) → i < length l → cut_rune l (pos i) ≡ some (take i l ++ drop (i + 1) l)
unfolding cut_rune
cut_rune_inside l i h = ground arith

cut_rune_last :
    (l : Line) (i : ℕ) → i ≡ length l → 0 < length l → cut_rune l (pos i) ≡ some (take (i - 1) l)
unfolding cut_rune
cut_rune_last l i h ne = ground (arith, drop_all i l (omega arith), append-nil (take (i - 1) l))

-- At a valid position of a line that is not empty `CutRune` takes out one rune: the one at the
-- position, or the last one if the position is the end of the line.
cut_rune_lem :
    (l : Line) (i : ℕ)
    → i ≤ length l
    → 0 < length l
    → (r : Line) × (cut_rune l (pos i) ≡ some r)
      × (suc (length r) ≡ length l)
      × (((i < length l) × (r ≡ take i l ++ drop (i + 1) l))
          ⊎ ((i ≡ length l) × (r ≡ take (i - 1) l)))
cut_rune_lem l i h ne = elim (dec_lt i (length l)) [
  | yes p ↦ (
    take i l ++ drop (i + 1) l,
    cut_rune_inside l i p,
    omega (
      arith,
      length-append {0} (take i l) (drop (i + 1) l),
      length-take {0} i l,
      length-drop {0} (i + 1) l,
    ),
    inl (p, refl),
  )
  | no p ↦ (
    take (i - 1) l,
    cut_rune_last l i (omega arith) ne,
    omega (arith, length-take {0} (i - 1) l),
    inr (omega arith, refl),
  )
]

-- `CutRune` never panics, and at an invalid position it changes nothing.
pub cut_rune-ne-none :
    (l : Line) (at : ℤ)
    → (cut_rune l at ≢ none) × ((cut_rune l at ≡ some l) ⊎ ((pos 0 ≤ℤ at) × (at ≤ℤ len l)))
unfolding cut_rune
cut_rune-ne-none l at = ground arith

length-insert_slice :
    (l vs : Line) (i : ℕ) → i ≤ length l → length (insert_slice l i vs) ≡ length l + length vs
length-insert_slice l vs i h = omega (
  arith,
  length-append {0} (take i l) (vs ++ drop i l),
  length-append {0} vs (drop i l),
  length-take {0} i l,
  length-drop {0} i l,
)

-- An insertion never shortens the line.
pub insert-length_ge : (l chars : Line) (at : ℤ) → length l ≤ length (insert l at chars)
unfolding insert
insert-length_ge l chars at =
    ground (arith, length-insert_slice l (take (end_of chars (length chars)) chars) (pos_part at))
