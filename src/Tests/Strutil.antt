-- ===== src/Tests/Strutil.antt =====
-- The theorems about internal/strutil at concrete inputs, and runs of the model.
use readline.Base.{ℕ, ◌≡◌, ◌↔◌, ◌⊎◌, true, false, refl, some, List, [], ◌∷◌, ◌++◌}
use readline.Strutil.Quotes.{
  scan, scan_rune, get_quoted_word_start, surround_type, adjust_surround_quotes, is_bracket,
}
use readline.Strutil.Quotes.Unclosed.{split-get_quoted_word_start}
use readline.Base.Int.{pos}
use readline.Strutil.Split.{
  unterminated_single, unterminated_double, Result, split, unterminated_escape, is_split_char,
  is_double_escape, step, at_end, split_word, escape_start, start, turn, split_loop,
}
use readline.Strutil.Split.Quoted.{quoted_words, split-quoted_words}

abbrev blank_word : List ℕ
blank_word = b'a' ∷ b' ' ∷ b'"' ∷ []

abbrev open_escape : List ℕ
open_escape = b'b' ∷ b' ' ∷ b'\\' ∷ []

split-run : split open_escape ≡ some ((b'b' ∷ []) ∷ [], some unterminated_escape)
unfolding split split_loop turn start escape_start split_word at_end step is_split_char
    is_double_escape
split-run = refl

split-quoted_words_example :
    (r : Result) × (split open_escape ≡ some r)
    × (split (quoted_words (blank_word ∷ [] ∷ []) open_escape)
        ≡ some ((blank_word ∷ [] ∷ []) ++ r.0, r.1))
split-quoted_words_example = split-quoted_words (blank_word ∷ [] ∷ []) open_escape

split-get_quoted_word_start_example :
    (r : Result) × (split open_escape ≡ some r)
    × (((get_quoted_word_start open_escape).0 ≡ true)
        ↔ ((r.1 ≡ some unterminated_single) ⊎ (r.1 ≡ some unterminated_double)))
split-get_quoted_word_start_example = split-get_quoted_word_start open_escape

surround_type_run : surround_type b'>' ≡ (false, false)
unfolding surround_type
surround_type_run = refl

adjust_surround_quotes_run : adjust_surround_quotes (pos 1) (pos 9) (pos 3) (pos 6) ≡ (pos 1, pos 9)
unfolding adjust_surround_quotes
adjust_surround_quotes_run = refl

is_bracket_run : (is_bracket b')' ≡ true) × (is_bracket b'>' ≡ false)
unfolding is_bracket
is_bracket_run = (refl, refl)

-- The word is not closed: the double quote stands at 0.
abbrev open_word : List ℕ
open_word = b'"' ∷ b'a' ∷ b' ' ∷ b'\'' ∷ []

get_quoted_word_start_run : get_quoted_word_start open_word ≡ (true, pos 0)
unfolding get_quoted_word_start scan scan_rune
get_quoted_word_start_run = refl
