-- ===== src/Core/Tokens.antt =====
-- The tokens of a line, and the motions by token (internal/core/line.go). The tokens are strings, whose
-- `len` counts bytes: `rune_len` is the number of bytes of a rune (`utf8.RuneLen`). It is a parameter,
-- as are `unicode.IsPunct` and `unicode.IsSpace`. An index out of range is `none`.
pub mod Offsets
pub mod Found
pub mod Back
use readline.Base.{
  ℕ, zero, suc, ◌+◌, ◌-◌, Bool, true, false, not, ◌&&◌, ◌||◌, Option, none, some, List, [], ◌∷◌,
  ◌++◌, ◌==◌, ltb, leb, if◌then◌else◌, length, get_elem?, is_empty, ◌>>=◌,
}
use readline.Base.Int.{ℤ, pos, pos_part, ◌-ℤ◌, ◌+ℤ◌, ltb_ℤ}
use readline.Core.Line.{Line, check_pos_range}

-- The variables of the loops of `Tokenize` and `TokenizeSpace`: `split` without its last token, the
-- last token, the flag (`punc` or `newline`), and the index and position that are found.
pub record Tokens : Type 0 where
  pub done : List Line
  pub token : Line
  pub flag : Bool
  pub index : ℕ
  pub at : ℕ

abbrev pub no_tokens : Tokens
no_tokens = record { done = []; token = []; flag = false; index = 0; at = 0 }

-- Is the rune in front the given one?
unfoldable pub follows : Option ℕ → ℕ → Bool
follows none char = false
follows (some r) char = r == char

-- `Tokenize`: whether a rune starts a token, from the rune in front and `punc`, and `punc` behind it.
unfoldable pub word_starts : (ℕ → Bool) → Option ℕ → Bool → ℕ → Bool
unfolding follows
word_starts is_punct prev punc char =
    if is_punct char
    then (elim prev [ none ↦ false | some r ↦ not (r == char) ])
    else if (char == b' ') || (char == b'\t')
    then false
    else if char == b'\n'
    then follows prev char
    else punc

unfoldable pub word_flag : (ℕ → Bool) → ℕ → Bool
word_flag is_punct char = is_punct char || ((char == b' ') || ((char == b'\t') || (char == b'\n')))

-- The same of `TokenizeSpace` and `newline`.
unfoldable pub blank_starts : Option ℕ → Bool → ℕ → Bool
unfolding follows
blank_starts prev newline char =
    if (char == b' ') || (char == b'\t')
    then false
    else if char == b'\n'
    then follows prev char
    else follows prev b' ' || (follows prev b'\t' || newline)

unfoldable pub blank_flag : ℕ → Bool
blank_flag char = char == b'\n'

module _ (starts : Option ℕ → Bool → ℕ → Bool) (flag : ℕ → Bool) where
  unfoldable pub add_rune : Option ℕ → Tokens → ℕ → Tokens
  add_rune prev t char =
      if starts prev t.flag char
      then record t { done = t.done ++ t.token ∷ []; token = char ∷ []; flag = flag char }
      else record t { token = t.token ++ char ∷ []; flag = flag char }

-- The results of a tokenizer: the tokens, the index of the one at the cursor, the position in it.
abbrev pub Split : Type 0
Split = List Line × ℕ × ℕ

module _ (rune_len : ℕ → ℕ) where
  -- `len` of a string.
  unfoldable pub bytes : Line → ℕ
  bytes [] = 0
  bytes (r ∷ s) = rune_len r + bytes s

  unfoldable pub note_cursor : ℕ → ℕ → Tokens → Tokens
  unfolding bytes
  note_cursor i cpos t =
      if i == cpos then record t { index = length t.done; at = bytes t.token - 1 } else t

  module _ (starts : Option ℕ → Bool → ℕ → Bool) (flag : ℕ → Bool) where
    unfoldable pub token_loop : Option ℕ → ℕ → ℕ → Line → Tokens → Tokens
    token_loop prev i cpos [] t = t
    token_loop prev i cpos (char ∷ line) t =
        token_loop (some char) (i + 1) cpos line
          (note_cursor i cpos (add_rune starts flag prev t char))

    unfoldable pub tokens_at : Line → ℕ → Split
    unfolding bytes
    tokens_at line cpos =
        let t = token_loop none 0 cpos line no_tokens in
        let split = t.done ++ t.token ∷ [] in
        if cpos == length line
        then (split, length t.done, bytes t.token)
        else (split, t.index, t.at)

  unfoldable pub tokenize : (ℕ → Bool) → Line → ℤ → Split
  tokenize is_punct line cpos =
      if is_empty line
      then ([], 0, 0)
      else tokens_at (word_starts is_punct) (word_flag is_punct) line
          (pos_part (check_pos_range line cpos))

  unfoldable pub tokenize_space : Line → ℤ → Split
  tokenize_space line cpos =
      if is_empty line
      then ([], 0, 0)
      else tokens_at blank_starts blank_flag line (pos_part (check_pos_range line cpos))

  -- The motions, from the results of a tokenizer. `Forward`:
  unfoldable pub forward : Line → Split → Option ℤ
  unfolding bytes
  forward line (split, index, at) =
      if is_empty split
      then some (pos 0)
      else if index + 1 == length split
      then some (pos (length line) -ℤ pos at)
      else do token ← get_elem? split index; some (pos (bytes token) -ℤ pos at)

  unfoldable pub backward : Split → Option ℤ
  unfolding bytes
  backward (split, index, at) =
      if is_empty split
      then some (pos 0)
      else if (index == 0) && (at == 0)
      then some (pos 0)
      else if at == 0
      then (do before ← get_elem? split (index - 1); some (pos 0 -ℤ pos (bytes before)))
      else some (pos 0 -ℤ pos at)

  -- `strings.TrimRightFunc` with `unicode.IsSpace`.
  module _ (is_space : ℕ → Bool) where
    unfoldable pub trim_right : Line → Line
    trim_right [] = []
    trim_right (r ∷ s) =
        let rest = trim_right s in if is_empty rest && is_space r then [] else r ∷ rest

    unfoldable pub forward_end : Split → Option ℤ
    unfolding bytes trim_right
    forward_end (split, index, at) =
        if is_empty split then some (pos 0) else elim (get_elem? split index) [
          | none ↦ none
          | some token ↦
              let word = bytes (trim_right token) in
              let passed = leb word (at + 1) in
              if (index + 1 == length split) && passed
              then some (pos 0)
              else if passed
              then elim (get_elem? split (index + 1)) [
                | none ↦ none
                | some next ↦
                    some ((pos (bytes token) -ℤ pos at) +ℤ (pos (bytes (trim_right next)) -ℤ pos 1))
              ]
              else some (pos word -ℤ pos (at + 1))
        ]
