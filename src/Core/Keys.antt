-- ===== src/Core/Keys.antt =====
-- The stack of keys (internal/core/keys.go), without the reads of the terminal: `WaitAvailableKeys`,
-- `ReadKey` and the channels. Keys of the terminal are bytes, those of macros are runes. Two
-- conversions are parameters: `to_runes` of bytes that are read as UTF-8, Go's `[]rune(string(b))`,
-- and `first_cluster`, the split of uniseg.FirstGraphemeCluster.
pub mod Queue
use readline.Base.{
  ℕ, ◌%◌, Bool, true, false, Option, none, some, List, [], ◌∷◌, ◌++◌, if◌then◌else◌, is_empty,
}

pub record Keys : Type 0 where
  pub buf : List ℕ
  pub matched : List ℕ
  pub macro_keys : List ℕ
  pub must_wait : Bool

-- Go's `byte(r)`.
abbrev pub to_byte : ℕ → ℕ
to_byte r = r % 256

-- The two stacks, that of the terminal first: the key in front, as a byte, and what stays behind.
unfoldable pub take_key : List ℕ → List ℕ → Option (ℕ × List ℕ × List ℕ)
take_key (b ∷ buf) macros = some (b, buf, macros)
take_key [] (r ∷ macros) = some (to_byte r, [], macros)
take_key [] [] = none

unfoldable pub peek_key : Keys → Option ℕ
unfolding take_key
peek_key k = elim (take_key k.buf k.macro_keys) [ none ↦ none | some (key, buf, macros) ↦ some key ]

unfoldable pub pop_key : Keys → Keys × Option ℕ
unfolding take_key
pop_key k = elim (take_key k.buf k.macro_keys) [
  | none ↦ (k, none)
  | some (key, buf, macros) ↦ (record k { buf = buf; macro_keys = macros }, some key)
]

unfoldable pub pop_force : Keys → Keys × Option ℕ
unfolding take_key
pop_force k = elim (take_key k.buf k.macro_keys) [
  | none ↦ (k, none)
  | some (key, buf, macros) ↦
      (record k { buf = buf; macro_keys = macros; must_wait = false }, some key)
]

-- Method `Pop`: the key counts as matched.
unfoldable pub pop : Keys → Keys × Option ℕ
unfolding take_key
pop k = elim (take_key k.buf k.macro_keys) [
  | none ↦ (k, none)
  | some (key, buf, macros) ↦
      (record k { buf = buf; macro_keys = macros; matched = k.matched ++ key ∷ [] }, some key)
]

-- `MacroKeys`
unfoldable pub get_macro_keys : Keys → List ℕ
get_macro_keys k = if k.must_wait then [] else k.matched

unfoldable pub flush_used : Keys → Keys
flush_used k = record k { matched = [] }

abbrev pub caller : Keys → List ℕ
caller k = k.matched

-- `Feed`, of valid runes.
unfoldable pub feed : Keys → Bool → List ℕ → Keys
feed k begin keys =
    if is_empty keys
    then k
    else record k { macro_keys = if begin then keys ++ k.macro_keys else k.macro_keys ++ keys }

module _ (to_runes : List ℕ → List ℕ) where
  unfoldable pub matched_keys : Keys → List ℕ → List ℕ → Keys
  matched_keys k matched args = record k {
    matched = if is_empty matched then k.matched else to_runes matched;
    buf = if is_empty args then k.buf else args ++ k.buf;
    must_wait = false;
  }

  unfoldable pub matched_prefix : Keys → List ℕ → Keys
  matched_prefix k prefix =
      if is_empty prefix
      then k
      else record k { must_wait = is_empty k.buf; buf = prefix ++ k.buf; matched = to_runes prefix }

-- `PeekChar` and `PopChar`; `encode` is Go's `[]byte(string(r))`.
module _ (first_cluster : List ℕ → List ℕ × List ℕ) (encode : ℕ → List ℕ) where
  unfoldable pub pop_char : Keys → Keys × Option (List ℕ)
  pop_char k =
      if is_empty k.buf
      then (elim k.macro_keys [
        | [] ↦ (k, none)
        | r ∷ macros ↦ (record k { macro_keys = macros }, some (encode r))
      ])
      else (record k { buf = (first_cluster k.buf).1 }, some (first_cluster k.buf).0)

  unfoldable pub peek_char : Keys → Option (List ℕ)
  peek_char k =
      if is_empty k.buf
      then (elim k.macro_keys [ [] ↦ none | r ∷ macros ↦ some (encode r) ])
      else some (first_cluster k.buf).0
