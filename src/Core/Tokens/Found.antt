-- ===== src/Core/Tokens/Found.antt =====
-- What the tokenizers find (internal/core/line.go).
use readline.Base.{
  ℕ, suc, ◌+◌, ◌-◌, ◌≤◌, ◌<◌, ◌≡◌, refl, ap, ◌∙◌, Bool, Option, none, [], ◌∷◌, ◌++◌, ◌==◌,
  if◌then◌else◌, length, take, arith, append-nil, length-append, take_all, Bool-cases, inl, inr,
}
use readline.Base.Int.{ℤ, pos_part}
use readline.Core.Line.{Line, check_pos_range}
use readline.Core.Tokens.{
  no_tokens, Split, bytes, token_loop, tokens_at, tokenize, tokenize_space, word_starts, word_flag,
  blank_starts, blank_flag,
}
use readline.Core.Tokens.Offsets.{
  joined, joined-append, take-append_le, bytes-append, token_loop-IsSplit, no_tokens-IsSplit,
}

-- The byte that the index and the position of a tokenizer point to, for a cursor at `cpos`: the last
-- byte of the rune there, or the end of the line.
unfoldable pub byte_at : (ℕ → ℕ) → Line → ℕ → ℕ
byte_at rune_len line cpos =
    if cpos == length line then bytes rune_len line else bytes rune_len (take (suc cpos) line) - 1

-- The tokens make up the line, and the index and the position point to that byte.
pub record IsTokens (rune_len : ℕ → ℕ) (line : Line) (cpos : ℕ) (s : Split) : Type 0 where
  pub text : joined s.0 ≡ line
  pub index : s.1 < length s.0
  pub offset : bytes rune_len (joined (take s.1 s.0)) + s.2 ≡ byte_at rune_len line cpos

module _ (rune_len : ℕ → ℕ) (positive : (r : ℕ) → 0 < rune_len r) where
  tokens_at-IsTokens :
      (starts : Option ℕ → Bool → ℕ → Bool) (flag : ℕ → Bool) (line : Line) (cpos : ℕ)
      → cpos ≤ length line
      → IsTokens rune_len line cpos (tokens_at rune_len starts flag line cpos)
  unfolding tokens_at byte_at joined
  tokens_at-IsTokens starts flag line cpos h =
      let t = token_loop rune_len starts flag none 0 cpos line no_tokens in
      let s =
        token_loop-IsSplit starts flag rune_len positive cpos line [] none no_tokens 0 refl
          (no_tokens-IsSplit starts flag rune_len positive cpos) in
      let text =
        joined-append t.done (t.token ∷ [])
        ∙ ap (joined t.done ++◌) (append-nil t.token)
        ∙ s.text in
      let count = length-append t.done (t.token ∷ []) in
      elim (Bool-cases (cpos == length line)) [
        | inl e ↦
            let sum = bytes-append rune_len positive (joined t.done) t.token in
            let same = ap (bytes rune_len) s.text in
            let there : byte_at rune_len line cpos ≡ bytes rune_len line = rw (byte_at, e) refl in
            rw (tokens_at, e)
              (record {
                text = text;
                index = omega arith;
                offset =
                    rw
                      (
                        take-append_le (length t.done) t.done (t.token ∷ []) (omega arith),
                        take_all (length t.done) t.done (omega arith),
                      )
                      (omega arith);
              })
        | inr e ↦
            let inside : cpos < length line = ground arith in
            let index = s.index inside in
            let offset = s.offset inside in
            let there : byte_at rune_len line cpos ≡ bytes rune_len (take (suc cpos) line) - 1 =
              rw (byte_at, e) refl in
            rw (tokens_at, e)
              (record {
                text = text;
                index = omega arith;
                offset = rw (take-append_le t.index t.done (t.token ∷ []) index) (omega arith);
              })
      ]

  range : (line : Line) (at : ℤ) → pos_part (check_pos_range line at) ≤ length line
  unfolding check_pos_range
  range line at = ground arith

  -- In a line that is not empty, the tokens of `Tokenize`, and those of `TokenizeSpace`, make up the
  -- line. The index and the position point to the last byte of the rune at the cursor, brought into the
  -- line, or to the end of the line if the cursor is there.
  pub tokenize-IsTokens :
      (is_punct : ℕ → Bool) (r : ℕ) (line : Line) (at : ℤ)
      → IsTokens rune_len
          (r ∷ line)
          (pos_part (check_pos_range (r ∷ line) at))
          (tokenize rune_len is_punct (r ∷ line) at)
        × IsTokens rune_len
            (r ∷ line)
            (pos_part (check_pos_range (r ∷ line) at))
            (tokenize_space rune_len (r ∷ line) at)
  unfolding tokenize tokenize_space
  tokenize-IsTokens is_punct r line at =
      let cpos = pos_part (check_pos_range (r ∷ line) at) in
      (
        tokens_at-IsTokens (word_starts is_punct) (word_flag is_punct) (r ∷ line) cpos
            (range (r ∷ line) at),
        tokens_at-IsTokens blank_starts blank_flag (r ∷ line) cpos (range (r ∷ line) at),
      )
