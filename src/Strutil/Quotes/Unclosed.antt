-- ===== src/Strutil/Quotes/Unclosed.antt =====
-- The error of `Split` (internal/strutil/split.go) and `GetQuotedWordStart` (surround.go), both in
-- terms of the labels of `splitWord` over the whole input.
use readline.Base.{
  ℕ, zero, suc, ◌+◌, ◌≡◌, refl, sym, ap, ◌∙◌, ◌↔◌, ◌⊎◌, inl, inr, Bool, true, false, Option, none,
  some, List, [], ◌∷◌, ◌++◌, length, arith, Option-cases, ◌||◌,
}
use readline.Strutil.Split.{
  Label, raw, escape, single, double, double_escape, Step, word_end, goes, step, WordResult, word,
  failed, SplitError, unterminated_single, unterminated_double, unterminated_escape, split_word,
  at_end, Result, Start, skip, stop, read, start, escape_start, turn, split_loop, split,
  is_split_char, is_double_escape,
}
use readline.Strutil.Split.Ends.{Step-cases, split_loop-Total}
use readline.Strutil.Quotes.{Scan, scan_start, scan_rune, scan, get_quoted_word_start}

-- The label that a rune leads to, where a word that ends is followed by the next one.
label_of : Step → Label
label_of word_end = raw
label_of (goes label added) = label

labels : Label → List ℕ → Label
unfolding label_of
labels label [] = label
labels label (c ∷ input) = labels (label_of (step label c)) input

-- The error that the input ends with.
error_of : Label → Option SplitError
error_of raw = none
error_of escape = some unterminated_escape
error_of single = some unterminated_single
error_of double = some unterminated_double
error_of double_escape = some unterminated_double

error_of_raw : none ≡ error_of (labels raw [])
unfolding error_of labels
error_of_raw = refl

-- The flags of the scan at a label: whether it is in single quotes, in double ones, after a backslash.
flags : Label → Bool × Bool × Bool
flags raw = (false, false, false)
flags escape = (false, false, true)
flags single = (true, false, false)
flags double = (false, true, false)
flags double_escape = (false, true, true)

flags_of : Scan → Bool × Bool × Bool
flags_of s = (s.in_single, s.in_double, s.escaped)

step-flags :
    (label : Label) (s : Scan) (i c : ℕ)
    → flags_of s ≡ flags label
    → flags_of (scan_rune s i c) ≡ flags (label_of (step label c))
unfolding flags flags_of scan_rune label_of step is_split_char is_double_escape
step-flags raw s i c h = ground arith
step-flags escape s i c h = ground arith
step-flags single s i c h = ground arith
step-flags double s i c h = ground arith
step-flags double_escape s i c h = ground arith

scan-flags :
    (input : List ℕ) (label : Label) (s : Scan) (i : ℕ)
    → flags_of s ≡ flags label
    → flags_of (scan s i input) ≡ flags (labels label input)
unfolding scan labels
scan-flags [] label s i h = h
scan-flags (c ∷ input) label s i h =
    scan-flags input (label_of (step label c)) (scan_rune s i c) (i + 1) (step-flags label s i c h)

flags_start : flags_of scan_start ≡ flags raw
unfolding flags flags_of
flags_start = refl

-- A word that is read, and one that fails, in terms of the labels.
at_end-error :
    (label : Label) (buf : List ℕ) (err : SplitError)
    → at_end label buf ≡ failed err
    → error_of label ≡ some err
unfolding at_end error_of
at_end-error raw buf err e = cc
at_end-error escape buf err e = cc
at_end-error single buf err e = cc
at_end-error double buf err e = cc
at_end-error double_escape buf err e = cc

at_end-word :
    (label : Label) (buf w rest : List ℕ) → at_end label buf ≡ word w rest → label ≡ labels raw rest
unfolding at_end labels
at_end-word raw buf w [] e = refl
at_end-word raw buf w (c ∷ rest) e = cc
at_end-word escape buf w rest e = cc
at_end-word single buf w rest e = cc
at_end-word double buf w rest e = cc
at_end-word double_escape buf w rest e = cc

split_word-failed :
    (input : List ℕ) (label : Label) (buf : List ℕ) (err : SplitError)
    → split_word label buf input ≡ failed err
    → error_of (labels label input) ≡ some err
unfolding split_word labels label_of
split_word-failed [] label buf err e = at_end-error label buf err e
split_word-failed (c ∷ input) label buf err e = elim (Step-cases (step label c)) [
  | inl h ↦ let e' : word buf input ≡ failed err = rw (split_word, h) at e in cc
  | inr (label', added, h) ↦
      rw h (split_word-failed input label' (buf ++ added) err (rw (split_word, h) at e))
]

split_word-labels :
    (input : List ℕ) (label : Label) (buf w rest : List ℕ)
    → split_word label buf input ≡ word w rest
    → labels label input ≡ labels raw rest
unfolding split_word labels label_of
split_word-labels [] label buf w rest e = at_end-word label buf w rest e
split_word-labels (c ∷ input) label buf w rest e = elim (Step-cases (step label c)) [
  | inl h ↦
      let e' : word buf input ≡ word w rest = rw (split_word, h) at e in
      let same : input ≡ rest = cc in rw (h, same) refl
  | inr (label', added, h) ↦
      rw h (split_word-labels input label' (buf ++ added) w rest (rw (split_word, h) at e))
]

-- What is left of the input after a start, and the error of one that stops.
start-labels :
    (c : ℕ) (next rest : List ℕ)
    → start c next ≡ skip rest
    → labels raw (c ∷ next) ≡ labels raw rest
unfolding start escape_start labels label_of step is_split_char
start-labels c [] rest e = ground arith
start-labels c (d ∷ next) rest e = ground arith

start_stop :
    (c : ℕ) (next : List ℕ) (err : SplitError)
    → start c next ≡ stop err
    → error_of (labels raw (c ∷ next)) ≡ some err
unfolding start escape_start labels label_of step is_split_char error_of
start_stop c [] err e = ground arith
start_stop c (d ∷ next) err e = ground arith

turn_error :
    (s : Start) (w : WordResult) (f : List ℕ → Option Result) (label : Label) (r : Result)
    → ((rest : List ℕ) → s ≡ skip rest → label ≡ labels raw rest)
    → ((err : SplitError) → s ≡ stop err → error_of label ≡ some err)
    → ((err : SplitError) → w ≡ failed err → error_of label ≡ some err)
    → ((v rest : List ℕ) → w ≡ word v rest → label ≡ labels raw rest)
    → ((rest : List ℕ) (r' : Result) → f rest ≡ some r' → r'.1 ≡ error_of (labels raw rest))
    → turn s w f ≡ some r
    → r.1 ≡ error_of label
unfolding turn
turn_error (skip rest) w f label r skips stops fails reads later e =
    rw (skips rest refl) (later rest r e)
turn_error (stop err) w f label r skips stops fails reads later e =
    let same : r ≡ ([], some err) = cc in ap (λ x. x.1) same ∙ sym (stops err refl)
turn_error read (failed err) f label r skips stops fails reads later e =
    let same : r ≡ ([], some err) = cc in ap (λ x. x.1) same ∙ sym (fails err refl)
turn_error read (word w rest) f label r skips stops fails reads later e =
    elim (Option-cases (f rest)) [
      | inl h ↦ let e' : none ≡ some r = rw (turn, h) at e in cc
      | inr (r', h) ↦
          let e' : some (w ∷ r'.0, r'.1) ≡ some r = rw (turn, h) at e in
          let same : r ≡ (w ∷ r'.0, r'.1) = cc in
          rw (reads w rest refl) (ap (λ x. x.1) same ∙ later rest r' h)
    ]

split_loop-error :
    (n : ℕ) (input : List ℕ) (r : Result)
    → split_loop input n ≡ some r
    → r.1 ≡ error_of (labels raw input)
unfolding split_loop
split_loop-error n [] r e = let same : r ≡ ([], none) = cc in ap (λ x. x.1) same ∙ error_of_raw
split_loop-error zero (c ∷ next) r e = cc
split_loop-error (suc n) (c ∷ next) r e =
    turn_error (start c next) (split_word raw [] (c ∷ next)) (λ rest. split_loop rest n)
      (labels raw (c ∷ next)) r (start-labels c next) (start_stop c next)
      (split_word-failed (c ∷ next) raw []) (split_word-labels (c ∷ next) raw [])
      (split_loop-error n) e

IsOpen : Option SplitError → Type 0
IsOpen err = (err ≡ some unterminated_single) ⊎ (err ≡ some unterminated_double)

IsOpen-label :
    (label : Label) (s : Scan)
    → flags_of s ≡ flags label
    → ((s.in_double || s.in_single) ≡ true) ↔ IsOpen (error_of label)
unfolding flags flags_of error_of IsOpen
IsOpen-label raw s h = ground arith
IsOpen-label escape s h = ground arith
IsOpen-label single s h = ground arith
IsOpen-label double s h = ground arith
IsOpen-label double_escape s h = ground arith

open_scan :
    (input : List ℕ)
    → (get_quoted_word_start input).0
      ≡ ((scan scan_start 0 input).in_double || (scan scan_start 0 input).in_single)
unfolding get_quoted_word_start
open_scan input = ground arith

-- `Split` always returns, and its error says that a quote is open exactly if `GetQuotedWordStart`
-- finds that the last word of the same input is not closed.
pub split-get_quoted_word_start :
    (input : List ℕ)
    → (r : Result) × (split input ≡ some r)
      × (((get_quoted_word_start input).0 ≡ true)
          ↔ ((r.1 ≡ some unterminated_single) ⊎ (r.1 ≡ some unterminated_double)))
unfolding split IsOpen
split-get_quoted_word_start input =
    let (r, e) = split_loop-Total input (length input) (omega arith) in
    (
      r,
      e,
      rw (open_scan input, split_loop-error (length input) input r e)
          (IsOpen-label (labels raw input) (scan scan_start 0 input)
            (scan-flags input raw scan_start 0 flags_start)),
    )
