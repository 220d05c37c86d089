-- ===== src/Core/Iterations/Value.antt =====
-- The count that a command gets (internal/core/iterations.go).
use readline.Base.{
  ℕ, ◌+◌, ◌-◌, ◌*◌, ◌≤◌, ◌<◌, ◌≡◌, ◌≢◌, refl, List, [], ◌∷◌, ◌++◌, arith, some, ◌∙◌, ap, ◌==◌,
  if◌then◌else◌, append-nil, append_assoc,
}
use readline.Base.Int.{pos, negsuc, minus_one}
use readline.Core.Iterations.{Iterations, decimal, int_limit, add, count_of, get, reset}

-- A command never runs zero times: the count is never 0.
get-ne-zero : (i : Iterations) → (get i).1 ≢ pos 0
unfolding get count_of
get-ne-zero i = ground arith

abbrev pub Digit : ℕ → Type 0
Digit c = (b'0' ≤ c) × (c ≤ b'9')

abbrev pub Digits : List ℕ → Type 0
Digits [] = Unit
Digits (c ∷ cs) = Digit c × Digits cs

-- The number that digits stand for, behind those that make `acc`.
abbrev pub number : ℕ → List ℕ → ℕ
number acc [] = acc
number acc (c ∷ cs) = number (acc * 10 + (c - b'0')) cs

decimal-number : (acc : ℕ) (ds : List ℕ) → Digits ds → decimal acc ds ≡ some (number acc ds)
unfolding decimal
decimal-number acc [] h = refl
decimal-number acc (c ∷ cs) h = ground (arith, decimal-number (acc * 10 + (c - b'0')) cs)

-- The count of digits is the number that they stand for, but 1 for the number 0; with a minus sign in
-- front it is the negative number, but -1 for the number 0.
pub count_of-number :
    (d : ℕ) (ds : List ℕ)
    → Digits (d ∷ ds)
    → number 0 (d ∷ ds) < int_limit
    → (count_of (d ∷ ds) ≡ (if number 0 (d ∷ ds) == 0 then pos 1 else pos (number 0 (d ∷ ds))))
      × (count_of (b'-' ∷ d ∷ ds)
          ≡ (if number 0 (d ∷ ds) == 0 then minus_one else negsuc (number 0 (d ∷ ds) - 1)))
unfolding count_of
count_of-number d ds h lt = ground (arith, decimal-number 0 (d ∷ ds) h)

-- The keys of a numeric argument, added one by one.
abbrev pub typed : Iterations → List ℕ → Iterations
typed i [] = i
typed i (d ∷ ds) = typed (add i (d ∷ [])) ds

add-Digit : (i : Iterations) (d : ℕ) → Digit d → (add i (d ∷ [])).times ≡ i.times ++ d ∷ []
unfolding add decimal
add-Digit i d h = ground arith

typed-times : (i : Iterations) (ds : List ℕ) → Digits ds → (typed i ds).times ≡ i.times ++ ds
typed-times i [] h = rw append-nil refl
typed-times i (d ∷ ds) h =
    typed-times (add i (d ∷ [])) ds h.1
    ∙ ap (◌++ ds) (add-Digit i d h.0)
    ∙ append_assoc i.times (d ∷ []) ds

add_minus : (i : Iterations) → (add i (b'-' ∷ [])).times ≡ b'-' ∷ i.times
unfolding add decimal
add_minus i = refl

-- The digits that are typed after a reset make the count, as the number that they stand for, or 1 for
-- the number 0. A minus sign, also one that is typed after the digits, makes it negative.
pub get-typed :
    (i : Iterations) (d : ℕ) (ds : List ℕ)
    → Digits (d ∷ ds)
    → number 0 (d ∷ ds) < int_limit
    → ((get (typed (reset i) (d ∷ ds))).1
        ≡ (if number 0 (d ∷ ds) == 0 then pos 1 else pos (number 0 (d ∷ ds))))
      × ((get (add (typed (reset i) (d ∷ ds)) (b'-' ∷ []))).1
          ≡ (if number 0 (d ∷ ds) == 0 then minus_one else negsuc (number 0 (d ∷ ds) - 1)))
unfolding get reset
get-typed i d ds h lt =
    let plus = typed-times (reset i) (d ∷ ds) h in
    (
      ap count_of plus ∙ (count_of-number d ds h lt).0,
      ap count_of (add_minus (typed (reset i) (d ∷ ds)) ∙ ap (b'-' ∷◌) plus)
          ∙ (count_of-number d ds h lt).1,
    )
