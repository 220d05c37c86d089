-- ===== src/Inputrc/Escape.antt =====
-- `Escape` and `EscapeMacro` (inputrc/inputrc.go). `unicode.ToUpper`, `unicode.IsPrint` and the
-- format `%2x` are parameters.
use readline.Base.{ℕ, Bool, ◌||◌, List, [], ◌∷◌, ◌++◌, ◌==◌, if◌then◌else◌}
use readline.Inputrc.Codes.{
  escape_code, delete_code, alert_code, backspace_code, formfeed_code, newline_code, return_code,
  tab_code, vertical_code, decontrol, is_control, demeta, is_meta,
}

-- The texts of the map `m` of `escape`.
pub record Names : Type 0 where
  pub delete : List ℕ
  pub return : List ℕ

abbrev pub escape_names : Names
escape_names = record {
  delete = b'\\' ∷ b'C' ∷ b'-' ∷ b'?' ∷ [];
  return = b'\\' ∷ b'C' ∷ b'-' ∷ b'M' ∷ [];
}

abbrev pub macro_names : Names
macro_names = record { delete = b'\\' ∷ b'd' ∷ []; return = b'\\' ∷ b'r' ∷ [] }

module _ (to_upper : ℕ → ℕ) (is_print : ℕ → Bool) (hex : ℕ → List ℕ) where
  -- The default case, for a rune with no name: the prefixes, then the rune that is left.
  unfoldable pub escape_default : ℕ → List ℕ
  unfolding is_control decontrol is_meta demeta
  escape_default c =
      let c' = if is_control c then decontrol to_upper c else c in
      let c'' = if is_meta c' then demeta c' else c' in
      (if is_control c then b'\\' ∷ b'C' ∷ b'-' ∷ [] else [])
      ++ ((if is_meta c' then b'\\' ∷ b'M' ∷ b'-' ∷ [] else [])
          ++ (if is_print c'' then c'' ∷ [] else b'\\' ∷ b'x' ∷ hex c''))

  unfoldable pub escape_rune : Names → ℕ → List ℕ
  escape_rune m c =
      if c == alert_code
      then b'\\' ∷ b'a' ∷ []
      else if c == backspace_code
      then b'\\' ∷ b'b' ∷ []
      else if c == delete_code
      then m.delete
      else if c == escape_code
      then b'\\' ∷ b'e' ∷ []
      else if c == formfeed_code
      then b'\\' ∷ b'f' ∷ []
      else if c == newline_code
      then b'\\' ∷ b'n' ∷ []
      else if c == return_code
      then m.return
      else if c == tab_code
      then b'\\' ∷ b't' ∷ []
      else if c == vertical_code
      then b'\\' ∷ b'v' ∷ []
      else if (c == b'\\') || ((c == b'"') || (c == b'\''))
      then b'\\' ∷ c ∷ []
      else escape_default c

  unfoldable pub escape_with : Names → List ℕ → List ℕ
  escape_with m [] = []
  escape_with m (c ∷ s) = escape_rune m c ++ escape_with m s

  unfoldable pub escape : List ℕ → List ℕ
  unfolding escape_with
  escape s = escape_with escape_names s

  unfoldable pub escape_macro : List ℕ → List ℕ
  unfolding escape_with
  escape_macro s = escape_with macro_names s
