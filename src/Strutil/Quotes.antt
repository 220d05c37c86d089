-- ===== src/Strutil/Quotes.antt =====
-- Which runes open and close, and where an open quote starts (internal/strutil/surround.go).
pub mod Unclosed
pub mod Start
use readline.Base.{
  ℕ, suc, ◌+◌, Bool, true, false, not, ◌&&◌, ◌||◌, List, [], ◌∷◌, ◌==◌, if◌then◌else◌,
}
use readline.Base.Int.{ℤ, pos, minus_one, ltb_ℤ, eqb_ℤ}

-- `SurroundType`: is the rune one of a pair, and is it the closing one? The case of `>` has no body.
unfoldable pub surround_type : ℕ → Bool × Bool
surround_type char =
    if (char == b'{') || ((char == b'(') || ((char == b'[') || (char == b'<')))
    then (true, false)
    else if (char == b'}') || ((char == b')') || (char == b']'))
    then (true, true)
    else if char == b'>'
    then (false, false)
    else if (char == b'"') || (char == b'\'')
    then (true, true)
    else (false, false)

unfoldable pub is_bracket : ℕ → Bool
is_bracket char =
    (char == b'(')
    || ((char == b')')
        || ((char == b'{') || ((char == b'}') || ((char == b'[') || (char == b']')))))

-- The quotes found: neither pair is whole, or the outer one of two whole pairs, or the whole one.
unfoldable pub adjust_surround_quotes : ℤ → ℤ → ℤ → ℤ → ℤ × ℤ
adjust_surround_quotes d_bpos d_epos s_bpos s_epos =
    let no_single = eqb_ℤ s_bpos minus_one || eqb_ℤ s_epos minus_one in
    let no_double = eqb_ℤ d_bpos minus_one || eqb_ℤ d_epos minus_one in
    let found = ltb_ℤ minus_one d_bpos && ltb_ℤ minus_one s_bpos in
    let double_first = ltb_ℤ d_bpos s_bpos && (found && ltb_ℤ s_epos d_epos) in
    let single_first = ltb_ℤ s_bpos d_bpos && (found && ltb_ℤ d_epos s_epos) in
    if no_single && no_double
    then (minus_one, minus_one)
    else if no_single || double_first
    then (d_bpos, d_epos)
    else if no_double || single_first
    then (s_bpos, s_epos)
    else (minus_one, minus_one)

-- The variables of the loop of `GetQuotedWordStart`.
pub record Scan : Type 0 where
  pub in_single : Bool
  pub in_double : Bool
  pub escaped : Bool
  pub spos : ℤ
  pub dpos : ℤ

abbrev pub scan_start : Scan
scan_start = record {
  in_single = false;
  in_double = false;
  escaped = false;
  spos = minus_one;
  dpos = minus_one;
}

unfoldable pub scan_rune : Scan → ℕ → ℕ → Scan
scan_rune s i r =
    if s.escaped
    then record s { escaped = false }
    else if (r == b'\\') && not s.in_single
    then record s { escaped = true }
    else if r == b'"'
    then if s.in_single
      then s
      else record s { in_double = not s.in_double; dpos = if s.in_double then s.dpos else pos i }
    else if r == b'\''
    then if s.in_double
      then s
      else record s { in_single = not s.in_single; spos = if s.in_single then s.spos else pos i }
    else s

unfoldable pub scan : Scan → ℕ → List ℕ → Scan
unfolding scan_rune
scan s i [] = s
scan s i (r ∷ line) = scan (scan_rune s i r) (i + 1) line

unfoldable pub get_quoted_word_start : List ℕ → Bool × ℤ
unfolding scan
get_quoted_word_start line =
    let s = scan scan_start 0 line in
    if s.in_double
    then (true, s.dpos)
    else if s.in_single
    then (true, s.spos)
    else (false, minus_one)
