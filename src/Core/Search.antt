-- ===== src/Core/Search.antt =====
-- The searches in a line (internal/core/line.go): `Find` and what is built on it, the selections of
-- a word, and the newlines. A rune is read by `rune_at` only at an index that the code has checked.
pub mod Find
pub mod Words
pub mod Hits
use mathlib.Core.Option
use readline.Base.{
  ℕ, zero, suc, ◌+◌, ◌-◌, ◌%◌, Bool, true, false, ◌&&◌, ◌||◌, not, Option, none, some, List, [],
  ◌∷◌, ◌++◌, ◌==◌, ltb, leb, if◌then◌else◌, length, get_or,
}
use readline.Base.Int.{ℤ, pos, pos_part, minus_one, eqb_ℤ, ◌+ℤ◌, ◌-ℤ◌}
use readline.Core.Line.{Line, len, check_pos_range}
use readline.Core.Surround.{match_surround}

abbrev pub rune_at : Line → ℕ → ℕ
rune_at l i = get_or l i 0

-- The loop of `Find` from the index `at`, forward for at most `rounds` rounds, and backward.
unfoldable pub find_forward : Line → ℕ → ℕ → ℕ → ℤ
find_forward l char at zero = minus_one
find_forward l char at (suc rounds) =
    let later = find_forward l char (at + 1) rounds in
    if leb (length l) (at + 1)
    then minus_one
    else if rune_at l (at + 1) == char
    then pos (at + 1)
    else later

unfoldable pub find_backward : Line → ℕ → ℕ → ℤ
find_backward l char zero = minus_one
find_backward l char (suc at) =
    let later = find_backward l char at in if rune_at l at == char then pos at else later

unfoldable pub find : Line → ℕ → ℤ → Bool → ℤ
unfolding find_forward find_backward check_pos_range
find l char at forward =
    let at' = pos_part (check_pos_range l at) in
    if length l == 0
    then minus_one
    else if forward
    then find_forward l char at' (length l)
    else find_backward l char at'

-- The begin and end positions, and the pair of runes.
unfoldable pub find_surround : Line → ℕ → ℤ → ℤ × ℤ × ℕ × ℕ
find_surround l char at =
    let (bchar, echar) = match_surround char in
    (find l bchar (at +ℤ pos 1) false, find l echar (at -ℤ pos 1) true, bchar, echar)

-- The loop of `SurroundQuotes`: how many quotes stand before and after. `none` means that the rounds
-- ran out.
unfoldable pub count_quotes : Line → ℕ → ℤ → ℤ → ℕ → ℕ → ℕ → Option (ℕ × ℕ)
count_quotes l quote prev next before after zero = none
count_quotes l quote prev next before after (suc rounds) =
    let before' = if eqb_ℤ prev minus_one then before else before + 1 in
    let after' = if eqb_ℤ next minus_one then after else after + 1 in
    let later =
      count_quotes l quote (find l quote prev false) (find l quote next true) before' after'
        rounds in
    if eqb_ℤ prev minus_one || eqb_ℤ next minus_one then some (before', after') else later

-- With an even number on each side there are no quotes around the position.
unfoldable pub quotes_of : ℤ → ℤ → ℕ × ℕ → ℤ × ℤ
quotes_of bpos epos (before, after) =
    if before % 2 == 0 && after % 2 == 0 then (minus_one, minus_one) else (bpos, epos)

unfoldable pub surround_quotes : Line → Bool → ℤ → Option (ℤ × ℤ)
surround_quotes l single at =
    let quote = if single then b'\'' else b'"' in
    let bpos = find l quote (at +ℤ pos 1) false in
    let epos = find l quote at true in
    Option.map (quotes_of bpos epos) (count_quotes l quote bpos epos 0 0 (length l + 1))

-- `isAlphaNumUnderscore`
unfoldable pub is_alpha_num_underscore : ℕ → Bool
is_alpha_num_underscore r =
    (leb b'0' r && leb r b'9')
    || ((leb b'a' r && leb r b'z') || ((leb b'A' r && leb r b'Z') || r == b'_'))

-- `unicode.IsSpace`: the runes with the property White_Space.
unfoldable pub is_space : ℕ → Bool
is_space r =
    (leb 9 r && leb r 13)
    || (r == 32
        || (r == 0x85
            || (r == 0xa0
                || (r == 0x1680
                    || ((leb 0x2000 r && leb r 0x200a)
                        || (r == 0x2028
                            || (r == 0x2029 || (r == 0x202f || (r == 0x205f || r == 0x3000)))))))))

-- The two loops of the selections: to the first rune of the word, and to its last one.
unfoldable pub word_begin : (ℕ → Bool) → Line → ℕ → ℕ
word_begin in_word l zero = zero
word_begin in_word l (suc b) = if in_word (rune_at l b) then word_begin in_word l b else suc b

unfoldable pub word_end : (ℕ → Bool) → Line → ℕ → ℕ → ℕ
word_end in_word l e zero = e
word_end in_word l e (suc rounds) =
    let later = word_end in_word l (e + 1) rounds in
    if ltb e (length l - 1) && in_word (rune_at l (e + 1)) then later else e

-- The position that the selections start from.
unfoldable pub select_from : Line → ℤ → ℕ
unfolding check_pos_range
select_from l at =
    let at' = pos_part (check_pos_range l at) in if at' == length l then at' - 1 else at'

-- `isInWord` of the two selections: the class of runes that the word is made of.
unfoldable pub word_class : Line → ℕ → ℕ → Bool
unfolding is_alpha_num_underscore is_space
word_class l from =
    if is_alpha_num_underscore (rune_at l from) then is_alpha_num_underscore else is_space

unfoldable pub blank_class : Line → ℕ → ℕ → Bool
unfolding is_space
blank_class l from = if is_space (rune_at l from) then is_space else (λ r. not (is_space r))

-- The body that the two selections share.
unfoldable pub select_class : (Line → ℕ → ℕ → Bool) → Line → ℤ → ℕ × ℕ
unfolding select_from word_begin word_end
select_class class l at =
    let from = select_from l at in
    if length l == 0
    then (0, 0)
    else (word_begin (class l from) l from, word_end (class l from) l from (length l))

unfoldable pub select_word : Line → ℤ → ℕ × ℕ
unfolding word_class select_class
select_word l at = select_class word_class l at

unfoldable pub select_blank_word : Line → ℤ → ℕ × ℕ
unfolding blank_class select_class
select_blank_word l at = select_class blank_class l at

-- `Lines`: the number of newlines.
unfoldable pub lines : Line → ℕ
lines [] = 0
lines (r ∷ rest) = if r == b'\n' then lines rest + 1 else lines rest

-- The loop of `newlines`, at index `i`.
unfoldable pub newlines_from : ℕ → Line → List (ℕ × ℕ)
newlines_from i [] = []
newlines_from i (r ∷ rest) =
    if r == b'\n' then (i, i + 1) ∷ newlines_from (i + 1) rest else newlines_from (i + 1) rest

unfoldable pub newlines : Line → List (ℕ × ℕ)
unfolding newlines_from
newlines l = newlines_from 0 l ++ (length l, length l + 1) ∷ []
