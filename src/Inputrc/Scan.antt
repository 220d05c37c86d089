-- ===== src/Inputrc/Scan.antt =====
-- The scanning of a line of an inputrc file (inputrc/parse.go). `unicode.IsSpace`, `unicode.IsControl`
-- and the two case mappings are parameters. An index out of range is `none`.
use readline.Base.{
  ℕ, zero, suc, ◌+◌, ◌-◌, Bool, true, false, not, ◌&&◌, ◌||◌, Option, none, some, List, [], ◌∷◌,
  ◌==◌, ltb, if◌then◌else◌, length, take, drop, get_or, get_elem?, eqb, is_empty, map,
}
use readline.Base.Text.{codes}
use readline.Inputrc.Codes.{
  escape_code, delete_code, formfeed_code, newline_code, return_code, tab_code, vertical_code,
  encontrol, enmeta,
}

pub record Unicode : Type 0 where
  pub is_space : ℕ → Bool
  pub is_control : ℕ → Bool
  pub to_upper : ℕ → ℕ
  pub to_lower : ℕ → ℕ

unfoldable pub slice : List ℕ → ℕ → ℕ → List ℕ
slice r i end = take (end - i) (drop i r)

unfoldable pub grab : List ℕ → ℕ → ℕ → ℕ
grab r i end = if ltb i end then get_or r i 0 else 0

-- `findStringEnd`: where the string ends and whether it does, from the quote at `pos`. The rounds of
-- its loop are the runes that are left.
unfoldable pub string_loop : List ℕ → ℕ → ℕ → ℕ → ℕ → ℕ × Bool
string_loop seq quote end pos zero = (pos, false)
string_loop seq quote end pos (suc rounds) =
    let char = get_or seq pos 0 in
    let rest = string_loop seq quote end (if char == b'\\' then pos + 2 else pos + 1) rounds in
    if not (ltb pos end)
    then (pos, false)
    else if not (char == b'\\') && (char == quote)
    then (pos + 1, true)
    else rest

unfoldable pub find_string_end : List ℕ → ℕ → ℕ → Option (ℕ × Bool)
unfolding string_loop
find_string_end seq pos end = elim (get_elem? seq pos) [
  | none ↦ none
  | some quote ↦ some (string_loop seq quote end (pos + 1) (end - (pos + 1)))
]

-- The text in front of the first `-`, and that behind it.
unfoldable pub split_dash : List ℕ → Option (List ℕ × List ℕ)
split_dash [] = none
split_dash (c ∷ s) =
    if c == b'-'
    then some ([], s)
    else elim (split_dash s) [ none ↦ none | some (front, back) ↦ some (c ∷ front, back) ]

pub record Modifiers : Type 0 where
  pub key : List ℕ
  pub control : Bool
  pub meta : Bool

-- The loop of `decodeKey` over the modifiers; `none` is an unknown one. Its rounds are the runes left.
unfoldable pub modifiers : List ℕ → Bool → Bool → ℕ → Option Modifiers
unfolding split_dash
modifiers val control meta zero = some (record { key = val; control = control; meta = meta })
modifiers val control meta (suc rounds) = elim (split_dash val) [
  | none ↦ some (record { key = val; control = control; meta = meta })
  | some (name, rest) ↦
      let is_control =
        eqb name (codes "control") || (eqb name (codes "ctrl") || eqb name (codes "c")) in
      let is_meta = eqb name (codes "meta") || eqb name (codes "m") in
      let later = modifiers rest (control || is_control) (meta || is_meta) rounds in
      if is_control || is_meta then later else none
]

-- The rune of a key's name.
unfoldable pub named_key : List ℕ → ℕ
named_key val =
    if eqb val (codes "delete") || (eqb val (codes "del") || eqb val (codes "rubout"))
    then delete_code
    else if eqb val (codes "escape") || eqb val (codes "esc")
    then escape_code
    else if eqb val (codes "newline") || (eqb val (codes "linefeed") || eqb val (codes "lfd"))
    then newline_code
    else if eqb val (codes "return") || eqb val (codes "ret")
    then return_code
    else if eqb val (codes "tab")
    then tab_code
    else if eqb val (codes "space") || eqb val (codes "spc")
    then b' '
    else if eqb val (codes "formfeed") || eqb val (codes "ffd")
    then formfeed_code
    else if eqb val (codes "vertical") || eqb val (codes "vrt")
    then vertical_code
    else get_or val 0 0

module _ (u : Unicode) where
  open u use {is_space, is_control, to_upper, to_lower}

  unfoldable pub non_space_loop : List ℕ → ℕ → ℕ → ℕ
  non_space_loop r i zero = i
  non_space_loop r i (suc rounds) =
      if is_space (get_or r i 0) then non_space_loop r (i + 1) rounds else i

  unfoldable pub find_non_space : List ℕ → ℕ → ℕ → ℕ
  unfolding non_space_loop
  find_non_space r i end = non_space_loop r i (end - i)

  -- The loop of `findEnd`: its rune is that of the index, but for the first round.
  unfoldable pub end_loop : List ℕ → ℕ → ℕ → ℕ → ℕ → ℕ
  unfolding grab
  end_loop r end c i zero = i
  end_loop r end c i (suc rounds) =
      if (c == b'#') || (is_space c || is_control c)
      then i
      else end_loop r end (grab r (i + 1) end) (i + 1) rounds

  unfoldable pub find_end : List ℕ → ℕ → ℕ → ℕ
  unfolding end_loop grab
  find_end r i end = end_loop r end (grab r (i + 1) end) i (end - i)

  -- The first loop of `decodeKey`, in the same way.
  unfoldable pub key_loop : List ℕ → ℕ → ℕ → ℕ → ℕ → ℕ
  unfolding grab
  key_loop seq end c pos zero = pos
  key_loop seq end c pos (suc rounds) =
      if (c == b':') || ((c == b'#') || (is_space c || is_control c))
      then pos
      else key_loop seq end (grab seq (pos + 1) end) (pos + 1) rounds

  unfoldable pub code_of : Modifiers → List ℕ
  unfolding named_key encontrol enmeta
  code_of m =
      let char = named_key m.key in
      if m.control && m.meta
      then escape_code ∷ encontrol to_upper char ∷ []
      else if m.control
      then encontrol to_upper char ∷ []
      else if m.meta
      then enmeta char ∷ []
      else char ∷ []

  -- `decodeKey`: the key sequence and the index behind it; `none` is the error of an unknown modifier.
  unfoldable pub decode_key : List ℕ → ℕ → ℕ → Option (List ℕ × ℕ)
  unfolding key_loop modifiers code_of slice grab
  decode_key seq start end =
      let at = key_loop seq end (grab seq (start + 1) end) start (end - start) in
      let val = map to_lower (slice seq start at) in
      elim (modifiers val false false (length val)) [
        | none ↦ none
        | some m ↦ some (if is_empty m.key then [] else code_of m, at)
      ]
