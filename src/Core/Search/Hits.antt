-- ===== src/Core/Search/Hits.antt =====
-- What the callers of `Find` rely on, and the quotes and brackets around a position: `SurroundQuotes`
-- and `FindSurround` of internal/core/line.go.
use Prim.Native.Nat.add
use mathlib.Core.Option
use readline.Base.{
  ℕ, zero, suc, ◌+◌, ◌≤◌, ◌<◌, ◌≡◌, ◌≢◌, ◌⊎◌, refl, inl, inr, true, false, Bool, [], ◌∷◌, ◌++◌,
  arith, length, get_or, take, drop, none, some, sym, ◌∙◌, ap, length-append, length-drop,
  length-take, Bool-cases, ◌==◌, ◌%◌, ◌&&◌, Option-cases, if◌then◌else◌,
}
use readline.Base.Int.{ℤ, pos, minus_one, ◌+ℤ◌, eqb_ℤ}
use readline.Core.Line.{Line, check_pos_range}
use readline.Core.Search.{rune_at, find, count_quotes, quotes_of, surround_quotes}
use readline.Core.Search.Find.{FirstIn, LastIn, start_of, find_after, find_before}

get_or-drop : (l : Line) (n m : ℕ) → get_or (drop n l) m 0 ≡ get_or l (n + m) 0
get_or-drop l zero m = ap (λ k. get_or l k 0) (omega arith)
get_or-drop [] (suc n) m = refl
get_or-drop (x ∷ xs) (suc n) m = rw add.suc (get_or-drop xs n m)

get_or-append : (xs ys : Line) (y : ℕ) → get_or (xs ++ y ∷ ys) (length xs) 0 ≡ y
get_or-append [] ys y = refl
get_or-append (x ∷ xs) ys y = get_or-append xs ys y

get_or-take : (l : Line) (n m : ℕ) → m < n → get_or (take n l) m 0 ≡ get_or l m 0
get_or-take l zero m h = absurd (omega arith)
get_or-take [] (suc n) m h = refl
get_or-take (x ∷ xs) (suc n) zero h = refl
get_or-take (x ∷ xs) (suc n) (suc m) h = get_or-take xs n m (omega arith)

-- A result of a forward search from index `from`, and of a backward one.
abbrev pub HitAfter : Line → ℕ → ℕ → ℤ → Type 0
HitAfter l c from r =
    (r ≡ minus_one) ⊎ ((k : ℕ) × (r ≡ pos k) × (from < k) × (k < length l) × (rune_at l k ≡ c))

abbrev pub HitBefore : Line → ℕ → ℕ → ℤ → Type 0
HitBefore l c from r =
    (r ≡ minus_one) ⊎ ((k : ℕ) × (r ≡ pos k) × (k < from) × (k < length l) × (rune_at l k ≡ c))

hit_of_first :
    (l : Line) (c s : ℕ) (r : ℤ) → FirstIn (drop (suc s) l) c (suc s) r → HitAfter l c s r
hit_of_first l c s r (inr (absent, e)) = inl e
hit_of_first l c s r (inl (mid, rest, split, absent, e)) =
    let size : length (drop (suc s) l) ≡ length mid + suc (length rest) =
      ap length split ∙ length-append mid (c ∷ rest) in
    inr (
      suc s + length mid,
      e,
      omega arith,
      omega (arith, size, length-drop {0} (suc s) l),
      sym (get_or-drop l (suc s) (length mid))
          ∙ ap (λ t. get_or t (length mid) 0) split
          ∙ get_or-append mid rest c,
    )

hit_of_last : (l : Line) (c s : ℕ) (r : ℤ) → LastIn (take s l) c r → HitBefore l c s r
hit_of_last l c s r (inr (absent, e)) = inl e
hit_of_last l c s r (inl (front, mid, split, absent, e)) =
    let size : length (take s l) ≡ length front + suc (length mid) =
      ap length split ∙ length-append front (c ∷ mid) in
    inr (
      length front,
      e,
      omega (arith, size, length-take {0} s l),
      omega (arith, size, length-take {0} s l),
      sym (get_or-take l s (length front) (omega (arith, size, length-take {0} s l)))
          ∙ ap (λ t. get_or t (length front) 0) split
          ∙ get_or-append front mid c,
    )

pub find-HitAfter : (l : Line) (c : ℕ) (at : ℤ) → HitAfter l c (start_of l at) (find l c at true)
find-HitAfter l c at = hit_of_first l c _ _ (find_after l c at)

pub find-HitBefore : (l : Line) (c : ℕ) (at : ℤ) → HitBefore l c (start_of l at) (find l c at false)
find-HitBefore l c at = hit_of_last l c _ _ (find_before l c at)

pub start_of-pos : (l : Line) (i : ℕ) → i ≤ length l → start_of l (pos i) ≡ i
unfolding check_pos_range
start_of-pos l i h = ground arith

start_of_next : (l : Line) (i : ℕ) → i ≤ length l → start_of l (pos i +ℤ pos 1) ≤ suc i
unfolding check_pos_range ◌+ℤ◌
start_of_next l i h = ground arith

-- The loop of `SurroundQuotes` ends before its rounds do: the forward search moves on in each.
abbrev Room : Line → ℤ → ℕ → Type 0
Room l next rounds =
    ((next ≡ minus_one) × (0 < rounds))
    ⊎ ((i : ℕ) × (next ≡ pos i) × (i < length l) × (length l < i + rounds))

Room-step :
    (l : Line) (c i n : ℕ) → i < length l → length l < i + suc n → Room l (find l c (pos i) true) n
Room-step l c i n h k = of_hit (find-HitAfter l c (pos i))
  where
    of_hit :
        HitAfter l c (start_of l (pos i)) (find l c (pos i) true) → Room l (find l c (pos i) true) n
    of_hit (inl e) = inl (e, omega arith)
    of_hit (inr (j, e, after, within, same)) =
        inr (j, e, within, omega (arith, start_of-pos l i (omega arith)))

count_quotes-ne-none :
    (l : Line) (c : ℕ) (prev next : ℤ) (b a rounds : ℕ)
    → Room l next rounds
    → count_quotes l c prev next b a rounds ≢ none
unfolding count_quotes
count_quotes-ne-none l c prev next b a zero (inl (e, h)) = absurd (omega arith)
count_quotes-ne-none l c prev next b a zero (inr (i, e, h, k)) = absurd (omega arith)
count_quotes-ne-none l c prev next b a (suc n) (inl (e, h)) = ground arith
count_quotes-ne-none l c prev next b a (suc n) (inr (i, e, h, k)) =
    (ground (
      arith,
      count_quotes-ne-none l c (find l c prev false) (find l c next true)
          (if eqb_ℤ prev minus_one then b else b + 1) (if eqb_ℤ next minus_one then a else a + 1) n
          (rw e (Room-step l c i n h k)),
    ))

Room-start : (l : Line) (c s : ℕ) (r : ℤ) → HitAfter l c s r → Room l r (length l + 1)
Room-start l c s r (inl e) = inl (e, omega arith)
Room-start l c s r (inr (j, e, after, within, same)) = inr (j, e, within, omega arith)

quotes_of_lem :
    (b e : ℤ) (n : ℕ × ℕ)
    → (((quotes_of b e n).0 ≡ minus_one) × ((quotes_of b e n).1 ≡ minus_one))
      ⊎ (((quotes_of b e n).0 ≡ b) × ((quotes_of b e n).1 ≡ e))
unfolding quotes_of
quotes_of_lem b e (before, after) = elim (Bool-cases (before % 2 == 0 && after % 2 == 0)) [
  | inl even ↦ rw even (inl (refl, refl))
  | inr odd ↦ rw odd (inr (refl, refl))
]

-- What `SurroundQuotes` may answer: no quotes, or two results of which each is -1 or the index of a
-- quote, the first at the position or in front of it, the second behind it.
abbrev pub AroundQuotes : Line → ℕ → ℕ → ℤ × ℤ → Type 0
AroundQuotes l quote i r =
    ((r.0 ≡ minus_one) × (r.1 ≡ minus_one))
    ⊎ (HitBefore l quote (suc i) r.0 × HitAfter l quote i r.1)

module _ (l : Line) (quote i : ℕ) (h : i ≤ length l) where
  hit_before : HitBefore l quote (suc i) (find l quote (pos i +ℤ pos 1) false)
  hit_before = clamped (find-HitBefore l quote (pos i +ℤ pos 1))
    where
      clamped :
          HitBefore l quote (start_of l (pos i +ℤ pos 1)) (find l quote (pos i +ℤ pos 1) false)
          → HitBefore l quote (suc i) (find l quote (pos i +ℤ pos 1) false)
      clamped (inl e) = inl e
      clamped (inr (k, e, before, within, same)) =
          inr (k, e, omega (arith, start_of_next l i h), within, same)

  hit_after : HitAfter l quote i (find l quote (pos i) true)
  hit_after = rw (start_of-pos l i h) at (find-HitAfter l quote (pos i))

  around :
      (b e : ℤ) (n : ℕ × ℕ)
      → HitBefore l quote (suc i) b
      → HitAfter l quote i e
      → AroundQuotes l quote i (quotes_of b e n)
  around b e n before after = elim (quotes_of_lem b e n) [
    | inl no_quotes ↦ inl no_quotes
    | inr (p, q) ↦ inr (rw p before, rw q after)
  ]

-- `SurroundQuotes` always returns, and answers with no quotes, or with two results of which each is
-- -1 or the index of a quote: the first at the position or in front of it, the second behind it.
surround_quotes_lem :
    (l : Line) (single : Bool) (i : ℕ)
    → i ≤ length l
    → (r : ℤ × ℤ) × (surround_quotes l single (pos i) ≡ some r)
      × AroundQuotes l (if single then b'\'' else b'"') i r
unfolding surround_quotes
surround_quotes_lem l single i h =
    counted (Option-cases (count_quotes l quote bpos epos 0 0 (length l + 1)))
  where
    quote : ℕ
    quote = if single then b'\'' else b'"'

    bpos : ℤ
    bpos = find l quote (pos i +ℤ pos 1) false

    epos : ℤ
    epos = find l quote (pos i) true

    counted :
        (count_quotes l quote bpos epos 0 0 (length l + 1) ≡ none)
          ⊎ ((n : ℕ × ℕ) × (count_quotes l quote bpos epos 0 0 (length l + 1) ≡ some n))
        → (r : ℤ × ℤ) × (surround_quotes l single (pos i) ≡ some r) × AroundQuotes l quote i r
    counted (inl e) = absurd (
        count_quotes-ne-none l quote bpos epos 0 0 (length l + 1)
          (Room-start l quote i epos (hit_after l quote i h)) e)
    counted (inr (n, e)) = (
      quotes_of bpos epos n,
      ap (Option.map (quotes_of bpos epos)) e,
      around l quote i h bpos epos n (hit_before l quote i h) (hit_after l quote i h),
    )
