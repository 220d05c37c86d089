-- ===== src/Keymap/Matching.antt =====
-- The match of keys against the bound sequences (internal/keymap/dispatch.go, internal/strutil/key.go).
-- `encode` is Go's `[]byte(string(r))` of a rune: keys are bytes, and sequences are strings of runes.
use readline.Base.{
  ℕ, Bool, true, false, ◌==◌, ltb, none, some, List, [], ◌∷◌, ◌++◌, length, eqb, if◌then◌else◌, map,
  ◌&&◌,
}
use readline.History.Match.{has_prefix}
use readline.Inputrc.Codes.{is_meta, demeta, escape_code}
use readline.Inputrc.Config.{Bind, Map, lookup}
use readline.Inputrc.Reader.{Text}
use readline.Keymap.{no_bind}

-- `ConvertMeta`
unfoldable pub convert_meta : List ℕ → List ℕ
convert_meta [] = []
convert_meta (c ∷ keys) =
    if is_meta c then escape_code ∷ (demeta c ∷ convert_meta keys) else c ∷ convert_meta keys

-- Go's order of strings.
unfoldable pub less : List ℕ → List ℕ → Bool
less [] [] = false
less [] (b ∷ ys) = true
less (a ∷ xs) [] = false
less (a ∷ xs) (b ∷ ys) = if a == b then less xs ys else ltb a b

module _ (encode : ℕ → List ℕ) where
  unfoldable pub bytes_of : List ℕ → List ℕ
  bytes_of [] = []
  bytes_of (r ∷ rs) = encode r ++ bytes_of rs

  -- The order by length and then by the alphabet, and a sort by it.
  unfoldable pub comes_before : Text → Text → Bool
  comes_before s t =
      let a = bytes_of s in
      let b = bytes_of t in if length a == length b then less a b else ltb (length a) (length b)

  unfoldable pub insert_sequence : Text → List Text → List Text
  insert_sequence s [] = s ∷ []
  insert_sequence s (t ∷ sequences) =
      if comes_before t s then t ∷ insert_sequence s sequences else s ∷ (t ∷ sequences)

  unfoldable pub sort_sequences : List Text → List Text
  sort_sequences [] = []
  sort_sequences (s ∷ sequences) = insert_sequence s (sort_sequences sequences)

  -- The bytes that are typed for a sequence.
  unfoldable pub typed_for : Text → List ℕ
  typed_for sequence = bytes_of (convert_meta sequence)

  -- Whether the keys are a part of the sequence only.
  unfoldable pub extends_keys : List ℕ → Text → Bool
  extends_keys keys sequence =
      ltb (length keys) (length (typed_for sequence)) && has_prefix (typed_for sequence) keys

  unfoldable pub bind_of : Map Bind → Text → Bind
  bind_of binds sequence = elim (lookup binds sequence) [ none ↦ no_bind | some b ↦ b ]

  -- The loop of `matchBind`: the exact match, which is the last one, and the matches by prefix.
  unfoldable pub match_loop : List ℕ → Map Bind → List Text → Bind × List Bind → Bind × List Bind
  match_loop keys binds [] found = found
  match_loop keys binds (sequence ∷ sequences) (match, prefixed) =
      let bind = bind_of binds sequence in
      match_loop keys binds sequences (
        if eqb keys (typed_for sequence) then bind else match,
        if extends_keys keys sequence then prefixed ++ bind ∷ [] else prefixed,
      )

  unfoldable pub match_bind : List ℕ → Map Bind → Bind × List Bind
  match_bind keys binds =
      match_loop keys binds (sort_sequences (map (λ entry. entry.0) binds)) (no_bind, [])
