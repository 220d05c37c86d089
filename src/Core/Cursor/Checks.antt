-- ===== src/Core/Cursor/Checks.antt =====
-- The checks of the cursor: `CheckAppend` and `CheckCommand` of internal/core/cursor.go.
use readline.Base.{◌≡◌, ◌⊎◌, refl, arith}
use readline.Base.Int.{ℤ, pos, minus_one, ◌+ℤ◌, ◌≤ℤ◌, ◌<ℤ◌}
use readline.Core.Line.{len}
use readline.Core.Cursor.{Cursor, check_append, set_pos, inc, dec, move, set_mark}

-- The position lies in the line or at its end, and the mark on a rune of the line, or there is none.
pub record IsValid (c : Cursor) : Type 0 where
  pub pos_from : pos 0 ≤ℤ c.pos
  pub pos_to : c.pos ≤ℤ len c.line
  pub mark_from : minus_one ≤ℤ c.mark
  pub mark_to : (c.mark ≡ minus_one) ⊎ (c.mark <ℤ len c.line)

pub check_append-IsValid : (c : Cursor) → IsValid (check_append c)
unfolding check_append
check_append-IsValid c = ground arith

pub check_append_id : (c : Cursor) → IsValid c → check_append c ≡ c
unfolding check_append
check_append_id c v = ground arith

pub check_append-line : (c : Cursor) → (check_append c).line ≡ c.line
unfolding check_append
check_append-line c = refl

-- The methods that move the cursor leave it valid, from whatever cursor they start.
pub set_pos-IsValid : (c : Cursor) (at : ℤ) → IsValid (set_pos c at)
unfolding set_pos check_append
set_pos-IsValid c at = ground arith

pub move-IsValid : (c : Cursor) (offset : ℤ) → IsValid (move c offset)
unfolding move check_append
move-IsValid c offset = ground arith

-- `Set` goes to a valid position, and to the nearer end of the line for any other.
pub set_pos_lem :
    (c : Cursor) (at : ℤ)
    → ((set_pos c at).line ≡ c.line)
      × (((set_pos c at).pos ≡ at)
          ⊎ ((at <ℤ pos 0) × ((set_pos c at).pos ≡ pos 0))
          ⊎ ((len c.line <ℤ at) × ((set_pos c at).pos ≡ len c.line)))
unfolding set_pos check_append
set_pos_lem c at = ground arith

-- `Move` moves by the offset, up to the ends of the line.
pub move_lem :
    (c : Cursor) (offset : ℤ)
    → ((move c offset).line ≡ c.line)
      × (((move c offset).pos ≡ c.pos +ℤ offset)
          ⊎ ((c.pos +ℤ offset <ℤ pos 0) × ((move c offset).pos ≡ pos 0))
          ⊎ ((len c.line <ℤ c.pos +ℤ offset) × ((move c offset).pos ≡ len c.line)))
unfolding move check_append
move_lem c offset = ground arith

pub inc-IsValid : (c : Cursor) → IsValid c → IsValid (inc c)
unfolding inc
inc-IsValid c v = ground arith

pub dec-IsValid : (c : Cursor) → IsValid c → IsValid (dec c)
unfolding dec
dec-IsValid c v = ground arith

-- One step forward and one back, away from the end of the line, is no step.
pub dec-inc : (c : Cursor) → IsValid c → c.pos <ℤ len c.line → dec (inc c) ≡ c
unfolding inc dec
dec-inc c v h = ground arith

pub set_mark-pos :
    (c : Cursor) → ((set_mark c).mark ≡ (set_mark c).pos) × ((set_mark c).line ≡ c.line)
unfolding set_mark
set_mark-pos c = (refl, refl)
