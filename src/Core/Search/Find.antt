-- ===== src/Core/Search/Find.antt =====
-- The two directions of `Find` (internal/core/line.go).
use readline.Base.{
  ℕ, zero, suc, ◌+◌, ◌≤◌, ◌<◌, ◌≡◌, ◌≢◌, ◌⊎◌, refl, inl, inr, true, false, [], ◌∷◌, ◌++◌, arith,
  length, take, drop, append_assoc, ap, sym, ◌∙◌, dec_lt, Bool-cases, ◌==◌, ==_iff, drop_all,
  length-take, Bool,
}
use native.Mathlib.Numerals.{add-one}
use mathlib.Core.Path.{subst}
use readline.Base.Int.{ℤ, pos, pos_part, minus_one}
use readline.Core.Line.{Line, check_pos_range}
use readline.Core.Search.{rune_at, find, find_forward, find_backward}

-- The rune does not occur.
abbrev pub Absent : ℕ → Line → Type 0
Absent c [] = Unit
Absent c (x ∷ xs) = (x ≢ c) × Absent c xs

Absent-append : (c : ℕ) (xs ys : Line) → Absent c xs → Absent c ys → Absent c (xs ++ ys)
Absent-append c [] ys h k = k
Absent-append c (x ∷ xs) ys (n, h) k = (n, Absent-append c xs ys h k)

drop-step : (l : Line) (i : ℕ) → i < length l → drop i l ≡ rune_at l i ∷ drop (suc i) l
drop-step [] i h = elim h [ ]
drop-step (x ∷ xs) zero h = refl
drop-step (x ∷ xs) (suc i) h = drop-step xs i (omega arith)

take-step : (l : Line) (i : ℕ) → i < length l → take (suc i) l ≡ take i l ++ rune_at l i ∷ []
take-step [] i h = elim h [ ]
take-step (x ∷ xs) zero h = refl
take-step (x ∷ xs) (suc i) h = ap (x ∷◌) (take-step xs i (omega arith))

-- The first occurrence in a text that starts at index `from`, or none.
abbrev pub FirstIn : Line → ℕ → ℕ → ℤ → Type 0
FirstIn text c from r =
    ((mid : Line) × (rest : Line) × (text ≡ mid ++ c ∷ rest)
      × Absent c mid
      × (r ≡ pos (from + length mid)))
    ⊎ (Absent c text × (r ≡ minus_one))

-- The last occurrence in a text that starts at index 0, or none.
abbrev pub LastIn : Line → ℕ → ℤ → Type 0
LastIn text c r =
    ((front : Line) × (mid : Line) × (text ≡ front ++ c ∷ mid)
      × Absent c mid
      × (r ≡ pos (length front)))
    ⊎ (Absent c text × (r ≡ minus_one))

LastIn-skip :
    (text rest : Line) (x c : ℕ) {r : ℤ}
    → text ≡ rest ++ x ∷ []
    → x ≢ c
    → LastIn rest c r
    → LastIn text c r
LastIn-skip text rest x c e n (inl (front, mid, split, absent, at)) = inl (
  front,
  mid ++ x ∷ [],
  e ∙ ap (◌++ x ∷ []) split ∙ append_assoc front (c ∷ mid) (x ∷ []),
  Absent-append c mid (x ∷ []) absent (n, tt),
  at,
)
LastIn-skip text rest x c e n (inr (absent, at)) =
    inr (rw e (Absent-append c rest (x ∷ []) absent (n, tt)), at)

FirstIn-nil : (text : Line) (c from : ℕ) → text ≡ [] → FirstIn text c from minus_one
FirstIn-nil text c from e = rw e (inr (tt, refl))

FirstIn-here : (text rest : Line) (c from : ℕ) → text ≡ c ∷ rest → FirstIn text c from (pos from)
FirstIn-here text rest c from e = inl ([], rest, e, tt, ap pos (omega arith))

FirstIn-skip :
    (text rest : Line) (x c from : ℕ) {r : ℤ}
    → text ≡ x ∷ rest
    → x ≢ c
    → FirstIn rest c (suc from) r
    → FirstIn text c from r
FirstIn-skip text rest x c from e n (inl (mid, back, split, absent, at)) =
    inl (x ∷ mid, back, cc, (n, absent), at ∙ ap pos (omega arith))
FirstIn-skip text rest x c from e n (inr (absent, at)) = inr (rw e (n, absent), at)

find_forward_miss :
    (l : Line) (c at n : ℕ)
    → suc at < length l
    → (rune_at l (suc at) == c) ≡ false
    → find_forward l c at (suc n) ≡ find_forward l c (suc at) n
unfolding find_forward
find_forward_miss l c at n p miss = rw add-one (ground arith)

find_forward_lem :
    (l : Line) (c at n : ℕ)
    → length l ≤ suc at + n
    → FirstIn (drop (suc at) l) c (suc at) (find_forward l c at n)
unfolding find_forward
find_forward_lem l c at zero h = FirstIn-nil _ c _ (drop_all (suc at) l (omega arith))
find_forward_lem l c at (suc n) h = elim (dec_lt (suc at) (length l)) [
  | yes p ↦ elim (Bool-cases (rune_at l (suc at) == c)) [
    | inl hit ↦ subst (FirstIn (drop (suc at) l) c (suc at)) (ground arith) (
        FirstIn-here _ (drop (suc (suc at)) l) c (suc at)
          (drop-step l (suc at) p ∙ ap (◌∷ drop (suc (suc at)) l) ((==_iff _ _).0 hit)))
    | inr miss ↦
        subst (FirstIn (drop (suc at) l) c (suc at)) (sym (find_forward_miss l c at n p miss)) (
          FirstIn-skip _ (drop (suc (suc at)) l) (rune_at l (suc at)) c (suc at)
            (drop-step l (suc at) p) (λ e. ground (arith, e))
            (find_forward_lem l c (suc at) n (omega arith)))
  ]
  | no p ↦
      subst (FirstIn (drop (suc at) l) c (suc at)) (ground arith)
        (FirstIn-nil _ c _ (drop_all (suc at) l (omega arith)))
]

find_before_nil : (c n : ℕ) → LastIn (take n []) c minus_one
find_before_nil c zero = inr (tt, refl)
find_before_nil c (suc n) = inr (tt, refl)

find_backward_lem :
    (l : Line) (c at : ℕ) → at ≤ length l → LastIn (take at l) c (find_backward l c at)
unfolding find_backward
find_backward_lem l c zero h = inr (tt, refl)
find_backward_lem l c (suc at) h = elim (Bool-cases (rune_at l at == c)) [
  | inl hit ↦ inl (
    take at l,
    [],
    take-step l at h ∙ ap (λ x. take at l ++ x ∷ []) ((==_iff _ _).0 hit),
    tt,
    rw hit (ap pos (omega (arith, length-take {0} at l))),
  )
  | inr miss ↦ rw miss (
      LastIn-skip _ (take at l) (rune_at l at) c (take-step l at h) (λ e. ground (arith, e))
        (find_backward_lem l c at (omega arith)))
]

abbrev pub start_of : Line → ℤ → ℕ
start_of l at = pos_part (check_pos_range l at)

pub start_of-le : (l : Line) (at : ℤ) → start_of l at ≤ length l
unfolding check_pos_range
start_of-le l at = ground arith

find_forward-eq :
    (x : ℕ) (xs : Line) (c : ℕ) (at : ℤ)
    → find (x ∷ xs) c at true ≡ find_forward (x ∷ xs) c (start_of (x ∷ xs) at) (length (x ∷ xs))
unfolding find
find_forward-eq x xs c at = ground arith

find_backward-eq :
    (x : ℕ) (xs : Line) (c : ℕ) (at : ℤ)
    → find (x ∷ xs) c at false ≡ find_backward (x ∷ xs) c (start_of (x ∷ xs) at)
unfolding find
find_backward-eq x xs c at = ground arith

find-nil : (c : ℕ) (at : ℤ) (forward : Bool) → find [] c at forward ≡ minus_one
unfolding find
find-nil c at forward = refl

-- Forward, `Find` gives the first occurrence behind the start position, brought into the line, or -1
-- if there is none.
pub find_after :
    (l : Line) (c : ℕ) (at : ℤ)
    → FirstIn (drop (suc (start_of l at)) l) c (suc (start_of l at)) (find l c at true)
find_after [] c at = rw find-nil (inr (tt, refl))
find_after (x ∷ xs) c at =
    rw find_forward-eq
      (find_forward_lem (x ∷ xs) c (start_of (x ∷ xs) at) (length (x ∷ xs)) (omega arith))

-- Backward, `Find` gives the last occurrence in front of the start position, brought into the line,
-- or -1 if there is none.
pub find_before :
    (l : Line) (c : ℕ) (at : ℤ) → LastIn (take (start_of l at) l) c (find l c at false)
find_before [] c at = rw find-nil (find_before_nil c (start_of [] at))
find_before (x ∷ xs) c at =
    rw find_backward-eq
      (find_backward_lem (x ∷ xs) c (start_of (x ∷ xs) at) (start_of-le (x ∷ xs) at))
