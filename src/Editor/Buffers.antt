-- ===== src/Editor/Buffers.antt =====
-- The registers (internal/editor/buffers.go): the numbered ones, of which 0 is the kill buffer, and the
-- lettered ones. `unicode.IsLetter` and `unicode.ToLower` are parameters. The names of registers and
-- the keys of the maps are numbers.
pub mod Push
pub mod Ring
use readline.Base.{
  ℕ, zero, suc, ◌+◌, ◌-◌, Bool, true, false, ◌&&◌, Option, none, some, List, [], ◌∷◌, ◌++◌, ◌==◌,
  ltb, leb, if◌then◌else◌, is_empty,
}
use readline.Base.Int.{ℤ, pos, pos_part, minus_one, ltb_ℤ}

abbrev pub Runes : Type 0
Runes = List ℕ

-- A Go map from registers to their contents, with its `len`.
pub record Registers : Type 0 where
  pub at : ℕ → Option Runes
  pub count : ℕ

abbrev pub no_registers : Registers
no_registers = record { at = λ k. none; count = 0 }

-- The content, or the empty slice for a missing key.
unfoldable pub content_at : Registers → ℕ → Runes
content_at m k = elim (m.at k) [ none ↦ [] | some buf ↦ buf ]

unfoldable pub put : Registers → ℕ → Runes → Registers
put m k buf = record {
  at = λ j. if j == k then some buf else m.at j;
  count = elim (m.at k) [ none ↦ m.count + 1 | some old ↦ m.count ];
}

unfoldable pub delete : Registers → ℕ → Registers
delete m k = record {
  at = λ j. if j == k then none else m.at j;
  count = elim (m.at k) [ none ↦ m.count | some old ↦ m.count - 1 ];
}

pub record Buffers : Type 0 where
  pub num : Registers
  pub alpha : Registers
  pub ro : Registers
  pub waiting : Bool
  pub selected : Bool
  pub active : ℕ

unfoldable pub new_buffers : Buffers
new_buffers = record {
  num = no_registers;
  alpha = no_registers;
  ro = no_registers;
  waiting = false;
  selected = false;
  active = 0;
}

-- `strconv.Atoi` of a single rune: the number, and whether it fails.
unfoldable pub atoi : ℕ → ℕ × Bool
atoi r = if leb b'0' r && leb r b'9' then (r - b'0', false) else (0, true)

-- Every branch of `SetActive` writes the same register.
unfoldable pub set_active : Buffers → ℕ → Buffers
set_active b register = record b { active = register; waiting = false; selected = true }

unfoldable pub reset : Buffers → Buffers
reset b = record b { active = 0; waiting = false; selected = false }

unfoldable pub get_kill : Buffers → Runes
unfolding content_at
get_kill b = if b.num.count == 0 then [] else content_at b.num 0

unfoldable pub get : Buffers → ℕ → Runes
unfolding content_at atoi
get b register =
    let (num, failed) = atoi register in
    let lettered : Runes = elim (b.alpha.at register) [
      | some buf ↦ buf
      | none ↦ content_at b.ro register
    ] in
    if register == 0 then get_kill b else if failed then lettered else content_at b.num num

-- `Active`
unfoldable pub active_content : Buffers → Buffers × Runes
active_content b = (
  reset b,
  if b.waiting then get b b.active else if b.selected then get b b.active else get_kill b,
)

-- The loop of `Pop`, whose bound is read again in each turn. `none` means that the turns ran out.
unfoldable pub pop_loop : Registers → ℕ → ℕ → Option Registers
unfolding content_at
pop_loop m i zero = none
pop_loop m i (suc turns) =
    let later = pop_loop (delete (put m i (content_at m (i + 1))) (i + 1)) (i + 1) turns in
    if ltb i m.count then later else some m

unfoldable pub pop : Buffers → Option (Buffers × Runes)
unfolding content_at
pop b =
    if b.num.count == 0
    then some (b, [])
    else elim (pop_loop (delete b.num 0) 0 (b.num.count + 1)) [
      | none ↦ none
      | some m ↦ some (record b { num = m }, content_at b.num 0)
    ]

-- The loop of `writeNum`: each register takes the content of the one below. Register 10 is left out.
unfoldable pub shift : Registers → ℕ → Registers
unfolding content_at
shift m zero = m
shift m (suc zero) = put m 1 (content_at m 0)
shift m (suc (suc i)) =
    let skipped = shift (put m (suc i) (content_at m i)) i in
    let moved = shift (put m (suc (suc i)) (content_at m (suc i))) (suc i) in
    if suc (suc i) == 10 then skipped else moved

unfoldable pub write_num : Buffers → ℤ → Runes → Buffers
write_num b register buf =
    if ltb_ℤ (pos 9) register
    then b
    else if ltb_ℤ (pos 0) register
    then record b { num = put b.num (pos_part register) buf }
    else record b { num = put (shift b.num b.num.count) 0 buf }

-- The runes of `appendRegs`.
abbrev pub upper_from : ℕ → ℕ → List ℕ
upper_from r zero = []
upper_from r (suc n) = r ∷ upper_from (r + 1) n

module _ (is_letter : ℕ → Bool) (to_lower : ℕ → ℕ) where
  -- The loop of `writeAlpha`: the register that it ends with, whether it has appended, the map.
  unfoldable pub alpha_loop : ℕ → Runes → List ℕ → ℕ × Bool × Registers → ℕ × Bool × Registers
  alpha_loop active buf [] s = s
  alpha_loop active buf (char ∷ chars) (register, appended, m) =
      let lower = to_lower active in
      let m' = put m lower (elim (m.at lower) [ none ↦ buf | some old ↦ old ++ buf ]) in
      alpha_loop active buf chars
        (if char == register then (lower, true, m') else (register, appended, m))

  unfoldable pub write_alpha : Buffers → ℕ → Runes → Buffers
  unfolding alpha_loop
  write_alpha b register buf =
      let (register', appended, m) =
        alpha_loop b.active buf (upper_from b'A' 26) (register, false, b.alpha) in
      record b { alpha = if appended then m else put m register' buf }

  -- The condition for a numbered register asks for an error of `Atoi`, and a number above 0. Atoi
  -- gives the number 0 with every error.
  unfoldable pub write_to : Buffers → ℕ → Runes → Buffers
  unfolding atoi
  write_to b register content =
      let (num, failed) = atoi register in
      if is_empty content
      then b
      else if register == 0
      then write_num b (pos 0) content
      else if ltb 0 num && (ltb num 10 && failed)
      then write_num b (pos num) content
      else if is_letter register
      then write_alpha b register content
      else b

  unfoldable pub write : Buffers → Runes → Buffers
  write b content =
      if is_empty content
      then reset b
      else if b.selected
      then reset (write_to b b.active content)
      else reset (write_num b minus_one content)
