-- ===== src/Strutil/Split/Ends.antt =====
-- How many turns the loop of `Split` takes (internal/strutil/split.go).
use readline.Base.{
  ℕ, zero, suc, ◌≤◌, ◌≡◌, refl, sym, Option, none, some, List, [], ◌∷◌, ◌++◌, length, Option-cases,
  arith, ◌⊎◌, inl, inr,
}
use readline.Strutil.Split.{
  split_loop, split_word, step, start, escape_start, at_end, raw, double, double_escape, word_end,
  goes, word, failed, Label, escape, single, WordResult, Result, Start, Step, turn, skip, stop,
  read,
}

-- A result that comes with some turns comes with more as well.
turn_more :
    (s : Start) (w : WordResult) (f g : List ℕ → Option Result) (r : Result)
    → ((rest : List ℕ) (r' : Result) → f rest ≡ some r' → g rest ≡ some r')
    → turn s w f ≡ some r
    → turn s w g ≡ some r
unfolding turn
turn_more (skip rest) w f g r m e = m rest r e
turn_more (stop err) w f g r m e = e
turn_more read (failed err) f g r m e = e
turn_more read (word w rest) f g r m e = elim (Option-cases (f rest)) [
  | inl h ↦ let e' : none ≡ some r = rw (turn, h) at e in cc
  | inr (r', h) ↦ rw (turn, m rest r' h) (rw (turn, h) at e)
]

pub split_loop_more :
    (input : List ℕ) (n k : ℕ) (r : Result)
    → n ≤ k
    → split_loop input n ≡ some r
    → split_loop input k ≡ some r
unfolding split_loop
split_loop_more [] n k r h e = e
split_loop_more (c ∷ next) zero k r h e = cc
split_loop_more (c ∷ next) (suc n) zero r h e = absurd (omega arith)
split_loop_more (c ∷ next) (suc n) (suc k) r h e =
    turn_more (start c next) (split_word raw [] (c ∷ next)) (λ rest. split_loop rest n)
      (λ rest. split_loop rest k) r (λ rest r' e'. split_loop_more rest n k r' (omega arith) e') e

-- A word leaves less input than there was.
pub Step-cases :
    (s : Step) → (s ≡ word_end) ⊎ ((label : Label) × (added : List ℕ) × (s ≡ goes label added))
Step-cases word_end = inl refl
Step-cases (goes label added) = inr (label, added, refl)

at_end-remainder :
    (label : Label) (buf w rest : List ℕ) → at_end label buf ≡ word w rest → rest ≡ []
unfolding at_end
at_end-remainder raw buf w rest e = cc
at_end-remainder escape buf w rest e = cc
at_end-remainder single buf w rest e = cc
at_end-remainder double buf w rest e = cc
at_end-remainder double_escape buf w rest e = cc

split_word-remainder :
    (label : Label) (buf input w rest : List ℕ)
    → split_word label buf input ≡ word w rest
    → length rest ≤ length input
unfolding split_word
split_word-remainder label buf [] w rest e = rw (at_end-remainder label buf w rest e) (omega arith)
split_word-remainder label buf (c ∷ input) w rest e = elim (Step-cases (step label c)) [
  | inl h ↦
      let e' : word buf input ≡ word w rest = rw (split_word, h) at e in
      let same : input ≡ rest = cc in rw (sym same) (omega arith)
  | inr (label', added, h) ↦
      let shorter =
        split_word-remainder label' (buf ++ added) input w rest (rw (split_word, h) at e) in
      omega arith
]

split_word-shorter :
    (label : Label) (c : ℕ) (buf input w rest : List ℕ)
    → split_word label buf (c ∷ input) ≡ word w rest
    → length rest ≤ length input
unfolding split_word
split_word-shorter label c buf input w rest e = elim (Step-cases (step label c)) [
  | inl h ↦
      let e' : word buf input ≡ word w rest = rw (split_word, h) at e in
      let same : input ≡ rest = cc in rw (sym same) (omega arith)
  | inr (label', added, h) ↦
      split_word-remainder label' (buf ++ added) input w rest (rw (split_word, h) at e)
]

start-shorter : (c : ℕ) (next rest : List ℕ) → start c next ≡ skip rest → length rest ≤ length next
unfolding start escape_start
start-shorter c [] rest e = ground arith
start-shorter c (d ∷ next) rest e = ground arith

turn-Total :
    (s : Start) (w : WordResult) (f : List ℕ → Option Result) (n : ℕ)
    → ((rest : List ℕ) → s ≡ skip rest → length rest ≤ n)
    → ((v rest : List ℕ) → w ≡ word v rest → length rest ≤ n)
    → ((rest : List ℕ) → length rest ≤ n → (r : Result) × (f rest ≡ some r))
    → (r : Result) × (turn s w f ≡ some r)
unfolding turn
turn-Total (skip rest) w f n b b' total = total rest (b rest refl)
turn-Total (stop err) w f n b b' total = (([], some err), refl)
turn-Total read (failed err) f n b b' total = (([], some err), refl)
turn-Total read (word w rest) f n b b' total =
    let (r, e) = total rest (b' w rest refl) in ((w ∷ r.0, r.1), rw (turn, e) refl)

pub split_loop-Total :
    (input : List ℕ) (n : ℕ) → length input ≤ n → (r : Result) × (split_loop input n ≡ some r)
unfolding split_loop
split_loop-Total [] n h = (([], none), refl)
split_loop-Total (c ∷ next) zero h = absurd (omega arith)
split_loop-Total (c ∷ next) (suc n) h =
    turn-Total (start c next) (split_word raw [] (c ∷ next)) (λ rest. split_loop rest n) n
      (λ rest e. let b = start-shorter c next rest e in omega arith)
      (λ w rest e. let b = split_word-shorter raw c [] next w rest e in omega arith)
      (λ rest b. split_loop-Total rest n b)
