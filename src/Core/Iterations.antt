-- ===== src/Core/Iterations.antt =====
-- The numeric argument of a command (internal/core/iterations.go), kept as the text that was typed.
-- Texts are lists of bytes. `strconv.Atoi` reads a Go int of 64 bits.
pub mod Value
use readline.Base.{
  ℕ, zero, suc, ◌+◌, ◌-◌, ◌*◌, Bool, true, false, not, ◌&&◌, ◌||◌, Option, none, some, List, [],
  ◌∷◌, ◌++◌, ◌==◌, ltb, leb, if◌then◌else◌, is_empty, eqb,
}
use readline.Base.Int.{ℤ, pos, negsuc, minus_one, eqb_ℤ}

-- The value of the digits behind those that make `acc`; `none` for any other byte.
unfoldable pub decimal : ℕ → List ℕ → Option ℕ
decimal acc [] = some acc
decimal acc (c ∷ cs) = if leb b'0' c && leb c b'9' then decimal (acc * 10 + (c - b'0')) cs else none

-- The largest int is 2 ^ 63 - 1.
abbrev pub int_limit : ℕ
int_limit = 9223372036854775808

-- The result of `Atoi` for a magnitude, and whether it is an error: a value out of range comes back
-- as the nearest int.
unfoldable pub signed : Bool → ℕ → ℤ × Bool
signed false n = if ltb n int_limit then (pos n, false) else (pos (int_limit - 1), true)
signed true n =
    if n == 0
    then (pos 0, false)
    else if leb n int_limit
    then (negsuc (n - 1), false)
    else (negsuc (int_limit - 1), true)

unfoldable pub unsigned : Bool → List ℕ → ℤ × Bool
unfolding decimal signed
unsigned negative [] = (pos 0, true)
unsigned negative (c ∷ cs) = elim (decimal 0 (c ∷ cs)) [
  | none ↦ (pos 0, true)
  | some n ↦ signed negative n
]

-- `strconv.Atoi`
unfoldable pub atoi : List ℕ → ℤ × Bool
unfolding unsigned
atoi [] = (pos 0, true)
atoi (c ∷ cs) =
    if c == b'-'
    then unsigned true cs
    else if c == b'+'
    then unsigned false cs
    else unsigned false (c ∷ cs)

pub record Iterations : Type 0 where
  pub times : List ℕ
  pub active : Bool
  pub pending : Bool

abbrev minus : List ℕ
minus = b'-' ∷ []

-- `strings.HasPrefix` and `strings.TrimPrefix` for "-".
unfoldable pub has_minus : List ℕ → Bool
has_minus [] = false
has_minus (c ∷ cs) = c == b'-'

unfoldable pub trim_minus : List ℕ → List ℕ
trim_minus [] = []
trim_minus (c ∷ cs) = if c == b'-' then cs else c ∷ cs

unfoldable pub add : Iterations → List ℕ → Iterations
unfolding atoi has_minus trim_minus
add i times = if is_empty times || ((atoi times).1 && not (eqb times minus)) then i else record {
  active = true;
  pending = true;
  times =
      if eqb times minus
      then times ++ i.times
      else if has_minus times
      then minus ++ (i.times ++ trim_minus times)
      else i.times ++ times;
}

-- What `Get` makes of the text.
unfoldable pub count_of : List ℕ → ℤ
unfolding atoi has_minus
count_of s =
    let (times, err) = atoi s in
    let valid =
      if err && has_minus s
      then minus_one
      else if err && eqb_ℤ times (pos 0)
      then pos 1
      else if eqb_ℤ times (pos 0) && has_minus s
      then minus_one
      else times in
    if eqb_ℤ valid (pos 0) then pos 1 else valid

unfoldable pub get : Iterations → Iterations × ℤ
get i = (record i { times = [] }, count_of i.times)

abbrev pub is_set : Iterations → Bool
is_set i = i.active

abbrev pub is_pending : Iterations → Bool
is_pending i = i.pending

unfoldable pub reset : Iterations → Iterations
reset i = record { times = []; active = false; pending = false }

-- `ResetPostRunIterations`, less the text of the hint.
unfoldable pub reset_post_run : Iterations → Iterations
reset_post_run i = if i.pending then record i { pending = false } else record i { active = false }
