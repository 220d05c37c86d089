-- ===== src/Core/Line/Bounds.antt =====
-- The checks of positions: `checkRange` and `checkPosRange` of internal/core/line.go.
use readline.Base.{◌≡◌, ◌≢◌, ◌⊎◌, true, arith}
use readline.Base.Int.{ℤ, pos, minus_one, ◌≤ℤ◌, ◌<ℤ◌}
use readline.Core.Line.{Line, len, check_range, check_pos_range}

-- A position comes back within the line: a valid one unchanged, any other at the end of the line
-- that is nearer to it.
pub check_pos_range_lem :
    (l : Line) (at : ℤ)
    → (pos 0 ≤ℤ check_pos_range l at)
      × (check_pos_range l at ≤ℤ len l)
      × ((check_pos_range l at ≡ at)
          ⊎ ((at <ℤ pos 0) × (check_pos_range l at ≡ pos 0))
          ⊎ ((len l <ℤ at) × (check_pos_range l at ≡ len l)))
unfolding check_pos_range
check_pos_range_lem l at = ground arith

-- Two positions of which one is not -1 come back as valid, and the begin position is at least 0. The
-- end position is at most the length of the line, or is the begin position that was given, if that
-- is beyond the line. They are in order unless the end position is negative.
pub check_range_lem :
    (l : Line) (b e : ℤ)
    → (b ≢ minus_one) ⊎ (e ≢ minus_one)
    → ((check_range l b e).2 ≡ true)
      × (pos 0 ≤ℤ (check_range l b e).0)
      × ((check_range l b e).1 ≤ℤ len l ⊎ ((len l <ℤ b) × ((check_range l b e).1 ≡ b)))
      × (((check_range l b e).0 ≤ℤ (check_range l b e).1) ⊎ (e <ℤ pos 0))
unfolding check_range
check_range_lem l b e h = ground arith
