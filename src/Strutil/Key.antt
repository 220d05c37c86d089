-- ===== src/Strutil/Key.antt =====
-- The printed form of a key, `Quote` (internal/strutil/key.go). `unicode.ToUpper` is a parameter.
use readline.Base.{ℕ, List, [], ◌∷◌, ◌==◌, length, if◌then◌else◌}
use readline.Inputrc.Codes.{tab_code, is_meta, demeta, is_control, decontrol}
use readline.Inputrc.Unescape.{unescape}

module _ (to_upper : ℕ → ℕ) where
  unfoldable pub quoted_key : ℕ → List ℕ
  quoted_key char =
      if char == tab_code
      then char ∷ []
      else if is_meta char
      then b'^' ∷ (b'[' ∷ (demeta char ∷ []))
      else if is_control char
      then b'^' ∷ (decontrol to_upper char ∷ [])
      else unescape to_upper (char ∷ [])

  unfoldable pub quote : ℕ → List ℕ × ℕ
  quote char = (quoted_key char, length (quoted_key char))
