-- ===== src/Core/Search/Words.antt =====
-- The selections of a word: `SelectWord` and `SelectBlankWord` of internal/core/line.go.
use readline.Base.{
  ℕ, zero, suc, ◌+◌, ◌-◌, ◌≤◌, ◌<◌, ◌≡◌, ◌≢◌, ◌⊎◌, refl, inl, inr, true, false, Bool, arith, length,
  Bool-cases, ℕ_discrete, dec_lt, ◌==◌,
}
use native.Mathlib.Numerals.{sub-one}
use readline.Base.Int.{ℤ}
use readline.Core.Line.{Line}
use readline.Core.Search.{rune_at, word_begin, word_end, select_from, select_class}

module _ (in_word : ℕ → Bool) (l : Line) where
  word_begin-le : (b : ℕ) → word_begin in_word l b ≤ b
  unfolding word_begin
  word_begin-le zero = omega arith
  word_begin-le (suc b) = ground (arith, word_begin-le b)

  word_begin_in : (b j : ℕ) → word_begin in_word l b ≤ j → j < b → in_word (rune_at l j) ≡ true
  unfolding word_begin
  word_begin_in zero j h k = absurd (omega arith)
  word_begin_in (suc b) j h k = elim (Bool-cases (in_word (rune_at l b))) [
    | inl inside ↦ elim (ℕ_discrete j b) [
      | yes e ↦ rw e inside
      | no n ↦ word_begin_in b j (ground arith) (omega arith)
    ]
    | inr outside ↦ absurd (ground arith)
  ]

  word_begin_maximal :
      (b : ℕ)
      → (word_begin in_word l b ≡ 0) ⊎ (in_word (rune_at l (word_begin in_word l b - 1)) ≡ false)
  unfolding word_begin
  word_begin_maximal zero = inl refl
  word_begin_maximal (suc b) = elim (Bool-cases (in_word (rune_at l b))) [
    | inl inside ↦ rw inside (word_begin_maximal b)
    | inr outside ↦ rw (outside, sub-one) (inr outside)
  ]

  word_end-ge : (e n : ℕ) → e ≤ word_end in_word l e n
  unfolding word_end
  word_end-ge e zero = omega arith
  word_end-ge e (suc n) = ground (arith, word_end-ge (e + 1) n)

  word_end-lt : (e n : ℕ) → e < length l → word_end in_word l e n < length l
  unfolding word_end
  word_end-lt e zero h = h
  word_end-lt e (suc n) h = ground (arith, word_end-lt (e + 1) n)

  word_end_in : (e n j : ℕ) → e < j → j ≤ word_end in_word l e n → in_word (rune_at l j) ≡ true
  unfolding word_end
  word_end_in e zero j h k = absurd (omega arith)
  word_end_in e (suc n) j h k = elim (Bool-cases (in_word (rune_at l (e + 1)))) [
    | inl inside ↦ elim (ℕ_discrete j (e + 1)) [
      | yes p ↦ rw p inside
      | no p ↦ word_end_in (e + 1) n j (omega arith) (ground arith)
    ]
    | inr outside ↦ absurd (ground arith)
  ]

  word_end_maximal :
      (e n : ℕ)
      → length l ≤ e + n
      → e < length l
      → (word_end in_word l e n ≡ length l - 1)
        ⊎ (in_word (rune_at l (word_end in_word l e n + 1)) ≡ false)
  unfolding word_end
  word_end_maximal e zero h k = absurd (omega arith)
  word_end_maximal e (suc n) h k = ground (arith, word_end_maximal (e + 1) n)

select_from-lt : (l : Line) (at : ℤ) → 0 < length l → select_from l at < length l
unfolding select_from
select_from-lt l at h = ground arith

module _ (class : Line → ℕ → ℕ → Bool) (l : Line) (at : ℤ) (ne : 0 < length l) where
  -- What holds of a selection, of the runes of `class` around the start position.
  select_class-eq : select_class class l at ≡ (
    word_begin (class l (select_from l at)) l (select_from l at),
    word_end (class l (select_from l at)) l (select_from l at) (length l),
  )
  unfolding select_class
  select_class-eq = elim (Bool-cases (length l == 0)) [
    | inl empty ↦ absurd (ground arith)
    | inr full ↦ rw full refl
  ]

  -- A selection lies within the line, and the start position within it.
  select_class_bounds :
      ((select_class class l at).0 ≤ select_from l at)
      × (select_from l at ≤ (select_class class l at).1)
      × ((select_class class l at).1 < length l)
  select_class_bounds =
      rw select_class-eq
        (word_begin-le _ l _, word_end-ge _ l _ _, word_end-lt _ l _ _ (select_from-lt l at ne))

  -- Every rune of a selection but the one at the start position is of the class.
  select_class_in :
      (j : ℕ)
      → (select_class class l at).0 ≤ j
      → j ≤ (select_class class l at).1
      → j ≢ select_from l at
      → class l (select_from l at) (rune_at l j) ≡ true
  select_class_in j = rw select_class-eq (inside j)
    where
      inside :
          (j : ℕ)
          → word_begin (class l (select_from l at)) l (select_from l at) ≤ j
          → j ≤ word_end (class l (select_from l at)) l (select_from l at) (length l)
          → j ≢ select_from l at
          → class l (select_from l at) (rune_at l j) ≡ true
      inside j h k n = elim (dec_lt j (select_from l at)) [
        | yes p ↦ word_begin_in _ l _ j h p
        | no p ↦ word_end_in _ l _ _ j (omega arith) k
      ]

  -- A selection cannot be extended: in front of it and behind it stands a rune of another class, or
  -- the line ends.
  select_class_maximal :
      (((select_class class l at).0 ≡ 0)
        ⊎ (class l (select_from l at) (rune_at l ((select_class class l at).0 - 1)) ≡ false))
      × (((select_class class l at).1 ≡ length l - 1)
          ⊎ (class l (select_from l at) (rune_at l ((select_class class l at).1 + 1)) ≡ false))
  select_class_maximal =
      rw select_class-eq
        (word_begin_maximal _ l _, word_end_maximal _ l _ _ (omega arith) (select_from-lt l at ne))
