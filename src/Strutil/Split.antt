-- ===== src/Strutil/Split.antt =====
-- Word splitting by the rules of the shell (internal/strutil/split.go). A string is the list of its
-- runes.
pub mod Ends
pub mod Quoted
use readline.Base.{
  ℕ, zero, suc, Bool, true, false, ◌||◌, Option, none, some, List, [], ◌∷◌, ◌++◌, ◌==◌,
  if◌then◌else◌, length,
}

pub data SplitError : Type 0 where
  unterminated_single : SplitError
  unterminated_double : SplitError
  unterminated_escape : SplitError

-- `strings.ContainsRune` for `splitChars` and `doubleEscapeChars`.
unfoldable pub is_split_char : ℕ → Bool
is_split_char c = (c == b' ') || ((c == b'\n') || (c == b'\t'))

unfoldable pub is_double_escape : ℕ → Bool
is_double_escape c = (c == b'$') || ((c == b'`') || ((c == b'"') || ((c == b'\n') || (c == b'\\'))))

-- The labels of `splitWord`. The last one is the second half of an escape in double quotes.
pub data Label : Type 0 where
  raw : Label
  escape : Label
  single : Label
  double : Label
  double_escape : Label

-- What one rune does: it ends the word, or leads to a label and adds runes to the word. The code
-- writes the runes of a run together; they are the same ones.
pub data Step : Type 0 where
  word_end : Step
  goes : Label → List ℕ → Step

unfoldable pub step : Label → ℕ → Step
unfolding is_split_char is_double_escape
step raw c =
    if c == b'\''
    then goes single []
    else if c == b'"'
    then goes double []
    else if c == b'\\'
    then goes escape []
    else if is_split_char c
    then word_end
    else goes raw (c ∷ [])
step escape c = if c == b'\n' then goes raw [] else goes raw (c ∷ [])
step single c = if c == b'\'' then goes raw [] else goes single (c ∷ [])
step double c =
    if c == b'"'
    then goes raw []
    else if c == b'\\'
    then goes double_escape []
    else goes double (c ∷ [])
step double_escape c =
    if is_double_escape c
    then if c == b'\n' then goes double [] else goes double (c ∷ [])
    else goes double (b'\\' ∷ c ∷ [])

pub data WordResult : Type 0 where
  word : List ℕ → List ℕ → WordResult
  failed : SplitError → WordResult

-- What the end of the input gives.
unfoldable pub at_end : Label → List ℕ → WordResult
at_end raw buf = word buf []
at_end escape buf = failed unterminated_escape
at_end single buf = failed unterminated_single
at_end double buf = failed unterminated_double
at_end double_escape buf = failed unterminated_double

-- `splitWord` from a label: the word and the remainder.
unfoldable pub split_word : Label → List ℕ → List ℕ → WordResult
unfolding at_end
split_word label buf [] = at_end label buf
split_word label buf (c ∷ input) = elim (step label c) [
  | word_end ↦ word buf input
  | goes label' added ↦ split_word label' (buf ++ added) input
]

-- How the loop of `Split` goes on at the start of a word.
pub data Start : Type 0 where
  skip : List ℕ → Start
  stop : SplitError → Start
  read : Start

unfoldable pub escape_start : List ℕ → Start
escape_start [] = stop unterminated_escape
escape_start (c ∷ next) = if c == b'\n' then skip next else read

unfoldable pub start : ℕ → List ℕ → Start
unfolding escape_start is_split_char
start c next = if is_split_char c then skip next else if c == b'\\' then escape_start next else read

-- One turn of the loop of `Split`, where `later` is the rest of the loop: the words, and the error if
-- there is one. The word that starts here is used only if one does.
abbrev pub Result : Type 0
Result = List (List ℕ) × Option SplitError

unfoldable pub turn : Start → WordResult → (List ℕ → Option Result) → Option Result
turn (skip rest) w later = later rest
turn (stop err) w later = some ([], some err)
turn read (failed err) later = some ([], some err)
turn read (word w rest) later = elim (later rest) [
  | none ↦ none
  | some (words, err) ↦ some (w ∷ words, err)
]

-- `none` means that the turns ran out.
unfoldable pub split_loop : List ℕ → ℕ → Option Result
unfolding turn
split_loop [] turns = some ([], none)
split_loop (c ∷ next) zero = none
split_loop (c ∷ next) (suc turns) =
    turn (start c next) (split_word raw [] (c ∷ next)) (λ rest. split_loop rest turns)

unfoldable pub split : List ℕ → Option Result
split input = split_loop input (length input)
