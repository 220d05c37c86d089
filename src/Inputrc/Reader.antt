-- ===== src/Inputrc/Reader.antt =====
-- The statements of an inputrc file: what one line says (inputrc/parse.go). `none` is a panic.
use readline.Base.{
  ℕ, zero, suc, ◌+◌, ◌-◌, Bool, true, false, not, ◌&&◌, ◌||◌, Option, none, some, List, [], ◌∷◌,
  ◌==◌, ltb, if◌then◌else◌, drop, get_or, get_elem?,
}
use readline.Base.Int.{ℤ}
use readline.Inputrc.Scan.{
  Unicode, find_non_space, find_end, find_string_end, grab, slice, decode_key,
}
use readline.Inputrc.Unescape.{unescape_runes}

abbrev pub Text : Type 0
Text = List ℕ

-- The error constants of inputrc.go, and the errors that come from elsewhere.
pub data Error (E : Type 0) : Type 0 where
  bind_missing_closing_quote : Error E
  missing_colon : Error E
  macro_missing_closing_quote : Error E
  invalid_keymap : Error E
  invalid_editing_mode : Error E
  else_without_matching_if : Error E
  endif_without_matching_if : Error E
  unknown_modifier : Error E
  invalid_number : Error E
  scan_failed : Error E
  foreign : E → Error E

-- A `ParseError`, or an error that is returned as it is.
pub data Failure (E : Type 0) : Type 0 where
  parse_error : Text → ℕ → Text → Error E → Failure E
  plain : Error E → Failure E

-- The values of variables: those of the three types, and those of any other.
pub data Value : Type 0 where
  flag : Bool → Value
  text : Text → Value
  number : ℤ → Value
  other : Value

pub data File (E : Type 0) : Type 0 where
  content : List ℕ → File E
  not_exist : File E
  unreadable : E → File E

-- The interface `Handler`, over the handler's state.
pub record Handler (S E : Type 0) : Type 0 where
  pub read_file : S → Text → File E
  pub on_construct : S → Text → Text → S × Option E
  pub set_var : S → Text → Value → S × Option E
  pub get_var : S → Text → Option Value
  pub bind : S → Text → Text → Text → Bool → S × Option E

-- The conditions, the innermost first.
pub record Parser (E : Type 0) : Type 0 where
  pub halt_on_err : Bool
  pub strict : Bool
  pub name : Text
  pub app : Text
  pub term : Text
  pub mode : Text
  pub keymap : Text
  pub line : ℕ
  pub conds : List Bool
  pub errs : List (Failure E)

pub data Token : Type 0 where
  token_none : Token
  token_bind : Token
  token_bind_macro : Token
  token_set : Token
  token_construct : Token

pub data Read (E : Type 0) : Type 0 where
  statement : Text → Text → Token → Read E
  failed : Failure E → Read E

unfoldable pub is_quote : ℕ → Bool
is_quote c = (c == b'"') || (c == b'\'')

-- `strings.HasPrefix` and `strings.TrimPrefix`.
unfoldable pub has_prefix : Text → Text → Bool
has_prefix s [] = true
has_prefix [] (x ∷ p) = false
has_prefix (y ∷ s) (x ∷ p) = (y == x) && has_prefix s p

unfoldable pub place : {E : Type 0} → Parser E → Text → Error E → Failure E
place p where_at err = parse_error p.name p.line where_at err

module _ (u : Unicode) where
  open u use {is_space, to_lower, to_upper}

  unfoldable pub read_symbols : Text → ℕ → ℕ → Bool → Option (Text × Text)
  read_symbols seq pos end allow_strings =
      let start = find_non_space u seq pos end in
      let behind = find_end u seq start end in
      let start' = find_non_space u seq behind end in
      let c = grab seq start' end in
      let symbol = slice seq start' (find_end u seq start' end) in
      if not (allow_strings || is_quote c)
      then some (slice seq start behind, symbol)
      else elim (find_string_end seq start' end) [
        | none ↦ none
        | some (epos, ok) ↦
            some (
              slice seq start behind,
              if allow_strings && ok then slice seq start' epos else symbol,
            )
      ]

  -- The position of the colon, from `pos` on.
  unfoldable pub colon_loop : Text → ℕ → ℕ → ℕ
  colon_loop seq pos zero = pos
  colon_loop seq pos (suc rounds) =
      if get_or seq pos 0 == b':' then pos else colon_loop seq (pos + 1) rounds

  module _ {E : Type 0} where
    -- What follows a key sequence: the rest of a bind.
    unfoldable pub read_action : Parser E → Text → Text → ℕ → ℕ → Option (Read E)
    unfolding place is_quote
    read_action p seq key from end =
        let colon = colon_loop seq from (end - from) in
        let pos = find_non_space u seq (colon + 1) end in
        if not (ltb colon end)
        then some (failed (place p seq missing_colon))
        else if not (ltb pos end) || (get_or seq pos 0 == b'#')
        then some (statement key [] token_none)
        else if not (is_quote (get_or seq pos 0))
        then some (statement key (slice seq pos (find_end u seq pos end)) token_bind)
        else elim (find_string_end seq pos end) [
          | none ↦ none
          | some (behind, ok) ↦
              if ok
              then some (
                  statement key (unescape_runes to_upper seq (pos + 1) (behind - 1))
                    token_bind_macro)
              else some (failed (place p (drop pos seq) macro_missing_closing_quote))
        ]

    unfoldable pub read_key : Parser E → Text → ℕ → ℕ → Option (Read E)
    unfolding place is_quote
    read_key p seq pos end =
        if is_quote (get_or seq pos 0)
        then elim (find_string_end seq pos end) [
          | none ↦ none
          | some (behind, ok) ↦
              if ok
              then read_action p seq (unescape_runes to_upper seq (pos + 1) (behind - 1)) behind end
              else some (failed (place p (drop pos seq) bind_missing_closing_quote))
        ]
        else elim (decode_key u seq pos end) [
          | none ↦ some (failed (place p seq unknown_modifier))
          | some (key, behind) ↦ read_action p seq key behind end
        ]

    -- `readNext`, whose reads at `pos` panic at the end of the line.
    unfoldable pub read_next : Parser E → Text → ℕ → ℕ → Option (Read E)
    read_next p seq from end =
        let pos = find_non_space u seq from end in
        let symbols = λ (at : ℕ) (token : Token) (strings : Bool).
          elim (read_symbols seq at end strings) as (λ _. Option (Read E)) [
            | none ↦ none
            | some (name, value) ↦ some (statement name value token)
          ] in
        elim (get_elem? seq pos) [
          | none ↦ none
          | some c ↦
              if (c == b's')
                && ((grab seq (pos + 1) end == b'e')
                    && ((grab seq (pos + 2) end == b't') && is_space (grab seq (pos + 3) end)))
              then symbols (pos + 4) token_set true
              else if c == b'$'
              then symbols pos token_construct false
              else read_key p seq pos end
        ]
