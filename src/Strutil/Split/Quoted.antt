-- ===== src/Strutil/Split/Quoted.antt =====
-- `Split` on words in double quotes (internal/strutil/split.go).
use readline.Base.{
  ℕ, zero, suc, ◌+◌, ◌≤◌, ◌≡◌, refl, ap, ◌∙◌, Bool, true, false, ◌||◌, Option, some, List, [], ◌∷◌,
  ◌++◌, ◌==◌, if◌then◌else◌, length, append_assoc, append-nil, Bool-cases, arith, length-append,
  inl, inr,
}
use readline.Strutil.Split.{
  split, split_loop, split_word, step, start, is_split_char, is_double_escape, raw, double,
  double_escape, goes, word, Label, SplitError, Result, turn, read,
}
use readline.Strutil.Split.Ends.{split_loop_more, split_loop-Total}

-- How a word is quoted: a backslash in front of each of the runes that are special in double quotes.
is_special : ℕ → Bool
is_special c = (c == b'$') || ((c == b'`') || ((c == b'"') || (c == b'\\')))

quoted_runes : List ℕ → List ℕ
quoted_runes [] = b'"' ∷ []
quoted_runes (c ∷ w) = if is_special c then b'\\' ∷ c ∷ quoted_runes w else c ∷ quoted_runes w

quoted : List ℕ → List ℕ
quoted w = b'"' ∷ quoted_runes w

-- The words one after the other, with a blank behind each, in front of more input.
pub quoted_words : List (List ℕ) → List ℕ → List ℕ
unfolding quoted
quoted_words [] input = input
quoted_words (w ∷ ws) input = quoted w ++ b' ' ∷ quoted_words ws input

step-special :
    (c : ℕ)
    → is_special c ≡ true
    → (step double b'\\' ≡ goes double_escape []) × (step double_escape c ≡ goes double (c ∷ []))
unfolding is_special is_double_escape step
step-special c h = ground arith

step-plain : (c : ℕ) → is_special c ≡ false → step double c ≡ goes double (c ∷ [])
unfolding is_special step
step-plain c h = ground arith

split_word-goes :
    (label label' : Label) (c : ℕ) (buf added input : List ℕ)
    → step label c ≡ goes label' added
    → split_word label buf (c ∷ input) ≡ split_word label' (buf ++ added) input
unfolding split_word
split_word-goes label label' c buf added input h = rw (split_word, h) refl

step-quote : (step raw b'"' ≡ goes double []) × (step double b'"' ≡ goes raw [])
unfolding step
step-quote = (refl, refl)

split_word-blank :
    (buf rest : List ℕ) → split_word raw (buf ++ []) (b' ' ∷ rest) ≡ word (buf ++ []) rest
unfolding split_word step is_split_char
split_word-blank buf rest = refl

-- Reading the runes of a quoted word up to the blank.
split_word-quoted_runes :
    (w buf rest : List ℕ)
    → split_word double buf (quoted_runes w ++ b' ' ∷ rest) ≡ word (buf ++ w) rest
unfolding quoted_runes
split_word-quoted_runes [] buf rest =
    split_word-goes double raw b'"' buf [] (b' ' ∷ rest) step-quote.1 ∙ split_word-blank buf rest
split_word-quoted_runes (c ∷ w) buf rest = elim (Bool-cases (is_special c)) [
  | inl special ↦ rw special (
      split_word-goes double double_escape b'\\' buf [] (c ∷ (quoted_runes w ++ b' ' ∷ rest))
        (step-special c special).0
      ∙ ap (λ b. split_word double_escape b (c ∷ (quoted_runes w ++ b' ' ∷ rest))) (append-nil buf)
      ∙ split_word-goes double_escape double c buf (c ∷ []) (quoted_runes w ++ b' ' ∷ rest)
          (step-special c special).1
      ∙ split_word-quoted_runes w (buf ++ c ∷ []) rest
      ∙ ap (λ b. word b rest) (append_assoc buf (c ∷ []) w))
  | inr plain ↦ rw plain (
      split_word-goes double double c buf (c ∷ []) (quoted_runes w ++ b' ' ∷ rest)
        (step-plain c plain)
      ∙ split_word-quoted_runes w (buf ++ c ∷ []) rest
      ∙ ap (λ b. word b rest) (append_assoc buf (c ∷ []) w))
]

split_word-quoted : (w rest : List ℕ) → split_word raw [] (quoted w ++ b' ' ∷ rest) ≡ word w rest
unfolding quoted
split_word-quoted w rest =
    split_word-goes raw double b'"' [] [] (quoted_runes w ++ b' ' ∷ rest) step-quote.0
    ∙ split_word-quoted_runes w [] rest

start-quote : (next : List ℕ) → start b'"' next ≡ read
unfolding start is_split_char
start-quote next = refl

-- Whatever follows the quoted words, they are the first ones.
split_loop-quoted :
    (ws vs : List (List ℕ)) (err : Option SplitError) (input : List ℕ) (turns n : ℕ)
    → split_loop input turns ≡ some (vs, err)
    → n ≡ length ws + turns
    → split_loop (quoted_words ws input) n ≡ some (ws ++ vs, err)
unfolding quoted_words split_loop quoted
split_loop-quoted [] vs err input turns n h k = let e : n ≡ turns = omega arith in rw e h
split_loop-quoted (w ∷ ws) vs err input turns zero h k = absurd (omega arith)
split_loop-quoted (w ∷ ws) vs err input turns (suc n) h k =
    rw
      (
        start-quote (quoted_runes w ++ b' ' ∷ quoted_words ws input),
        split_word-quoted w (quoted_words ws input),
        turn,
        split_loop-quoted ws vs err input turns n h (omega arith),
      )
      refl

length-quoted_words :
    (ws : List (List ℕ)) (input : List ℕ)
    → length ws + length input ≤ length (quoted_words ws input)
unfolding quoted_words quoted
length-quoted_words [] input = omega arith
length-quoted_words (w ∷ ws) input = omega (
  arith,
  length-append (quoted_runes w) (b' ' ∷ quoted_words ws input),
  length-quoted_words ws input,
)

-- `Split` always returns, and any words that are put in double quotes in front of an input, with a
-- backslash before each rune that is special there and a blank behind each word, come out as they
-- are, in front of the words and the error of the rest.
pub split-quoted_words :
    (ws : List (List ℕ)) (input : List ℕ)
    → (r : Result) × (split input ≡ some r)
      × (split (quoted_words ws input) ≡ some (ws ++ r.0, r.1))
unfolding split
split-quoted_words ws input =
    let (r, e) = split_loop-Total input (length input) (omega arith) in
    let bound = length-quoted_words ws input in
    (
      r,
      e,
      split_loop_more (quoted_words ws input) (length ws + length input)
          (length (quoted_words ws input)) (ws ++ r.0, r.1) bound
          (split_loop-quoted ws r.0 r.1 input (length input) (length ws + length input) e refl),
    )
