-- ===== src/Inputrc/Codes.antt =====
-- The codes of control and meta keys (inputrc/inputrc.go). `unicode.ToUpper` is a parameter.
use Prim.Native.Nat.{bit_and, bit_or}
use readline.Base.{ℕ, ◌-◌, Bool, ◌&&◌, ltb, leb, ◌==◌}

abbrev pub escape_code : ℕ
escape_code = 0x1b

abbrev pub delete_code : ℕ
delete_code = 0x7f

abbrev pub alert_code : ℕ
alert_code = 0x07

abbrev pub backspace_code : ℕ
backspace_code = 0x08

abbrev pub formfeed_code : ℕ
formfeed_code = 0x0c

abbrev pub newline_code : ℕ
newline_code = 0x0a

abbrev pub return_code : ℕ
return_code = 0x0d

abbrev pub tab_code : ℕ
tab_code = 0x09

abbrev pub vertical_code : ℕ
vertical_code = 0x0b

module _ (to_upper : ℕ → ℕ) where
  unfoldable pub encontrol : ℕ → ℕ
  encontrol c = bit_and (to_upper c) 0x1f

  unfoldable pub decontrol : ℕ → ℕ
  decontrol c = to_upper (bit_or c 0x40)

unfoldable pub is_control : ℕ → Bool
is_control c = ltb c b' ' && (bit_and c 0x80 == 0)

unfoldable pub enmeta : ℕ → ℕ
enmeta c = bit_or c 0x80

-- `c & ^Meta`
unfoldable pub demeta : ℕ → ℕ
demeta c = c - bit_and c 0x80

unfoldable pub is_meta : ℕ → Bool
is_meta c = ltb delete_code c && leb c 0xff
