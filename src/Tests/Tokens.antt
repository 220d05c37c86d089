-- ===== src/Tests/Tokens.antt =====
-- The theorems about the tokens of a line (internal/core/line.go) at concrete inputs, and runs.
use readline.Base.{
  ℕ, ◌≡◌, ◌<◌, refl, Bool, ◌||◌, some, [], ◌∷◌, ltb, ◌==◌, if◌then◌else◌, arith, length,
}
use readline.Base.Int.{ℤ, pos, negsuc, pos_part, ◌+ℤ◌, ◌-ℤ◌}
use readline.Core.Line.{Line, check_pos_range}
use readline.Core.Tokens.{
  bytes, tokenize, tokenize_space, backward, forward, forward_end, trim_right, tokens_at,
  token_loop, add_rune, note_cursor, blank_starts, blank_flag, word_starts, word_flag, follows,
}
use readline.Core.Tokens.Found.{IsTokens, tokenize-IsTokens}
use readline.Core.Tokens.Back.{token_start, backward-tokenize}

-- The bytes of a rune, for the runes used here.
abbrev rune_len : ℕ → ℕ
rune_len r = if ltb r 128 then 1 else 2

positive : (r : ℕ) → 0 < rune_len r
positive r = ground arith

abbrev punct : ℕ → Bool
punct r = (r == b'-') || (r == b'.')

abbrev space : ℕ → Bool
space r = (r == b' ') || (r == b'\n')

abbrev words : Line
words = b'l' ∷ b's' ∷ b' ' ∷ b'-' ∷ b'a' ∷ []

-- An accented rune of two bytes, twice, a blank, and another word.
abbrev accented : Line
accented = 233 ∷ 233 ∷ b' ' ∷ b'b' ∷ []

tokenize-IsTokens_example :
    IsTokens rune_len words
      (pos_part (check_pos_range words (pos 3)))
      (tokenize rune_len punct words (pos 3))
    × IsTokens rune_len words
        (pos_part (check_pos_range words (pos 3)))
        (tokenize_space rune_len words (pos 3))
tokenize-IsTokens_example =
    tokenize-IsTokens rune_len positive punct b'l' (b's' ∷ b' ' ∷ b'-' ∷ b'a' ∷ []) (pos 3)

plain_words : bytes rune_len words ≡ length words
unfolding bytes
plain_words = refl

backward-tokenize_example :
    ((d : ℤ) × (backward rune_len (tokenize rune_len punct words (pos 3)) ≡ some d)
      × (pos 3 +ℤ d ≡ pos (token_start (tokenize rune_len punct words (pos 3)))))
    × ((d : ℤ) × (backward rune_len (tokenize_space rune_len words (pos 3)) ≡ some d)
        × (pos 3 +ℤ d ≡ pos (token_start (tokenize_space rune_len words (pos 3)))))
backward-tokenize_example =
    backward-tokenize rune_len positive punct b'l' (b's' ∷ b' ' ∷ b'-' ∷ b'a' ∷ []) 3 plain_words
      (omega arith)

-- The blank word in front of the last rune is five bytes long, but three runes.
backward_run : backward rune_len (tokenize_space rune_len accented (pos 3)) ≡ some (negsuc 4)
unfolding backward bytes tokenize_space tokens_at token_loop add_rune note_cursor blank_starts
    blank_flag follows check_pos_range ◌-ℤ◌
backward_run = refl

forward_run :
    (forward rune_len words (tokenize rune_len punct words (pos 0)) ≡ some (pos 3))
    × (forward_end rune_len space (tokenize rune_len punct words (pos 0)) ≡ some (pos 1))
unfolding forward forward_end trim_right bytes tokenize tokens_at token_loop add_rune note_cursor
    word_starts word_flag follows check_pos_range ◌-ℤ◌ ◌+ℤ◌
forward_run = (refl, refl)
