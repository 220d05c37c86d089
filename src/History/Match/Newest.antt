-- ===== src/History/Match/Newest.antt =====
-- What the search of a history source finds (internal/history/sources.go).
use readline.Base.{
  ℕ, zero, suc, ◌+◌, ◌≤◌, ◌<◌, ◌≡◌, refl, ◌∙◌, Bool, true, false, Option, none, some, List, [], ◌∷◌,
  ◌==◌, ltb, if◌then◌else◌, length, get_elem?, arith, Bool-cases, get_elem?_lt, get_elem?_ge, inl,
  inr,
}
use readline.Base.Int.{ℤ, pos, minus_one, ltb_ℤ, ◌+ℤ◌, -ℤ-one, +ℤ-one}
use readline.Core.Line.{Line}
use readline.Core.Cursor.{Cursor}
use readline.History.Match.{is_match, match_loop, match, get_line, needle}

pub get_line-in :
    (entries : List Line) (i : ℕ) (line : Line)
    → get_elem? entries i ≡ some line
    → get_line entries (pos i) ≡ some line
unfolding get_line
get_line-in [] i line e = cc
get_line-in (first ∷ rest) i line e = ground arith

pub get_line-beyond :
    (entries : List Line) (i : ℕ)
    → 1 ≤ length entries
    → length entries ≤ i
    → get_line entries (pos i) ≡ none
unfolding get_line
get_line-beyond [] i one le = absurd (omega arith)
get_line-beyond (first ∷ rest) i one le = let out = get_elem?_ge (first ∷ rest) i le in ground arith

module _ (matches : List ℕ → List ℕ → Bool) (entries : List Line) where
  -- No entry from the first index on, and before the second one, matches.
  unfoldable pub NoneMatches : Bool → List ℕ → ℕ → ℕ → Type 0
  NoneMatches regex text from to =
      (i : ℕ) (line : Line)
      → from ≤ i
      → i < to
      → get_elem? entries i ≡ some line
      → is_match matches regex text line ≡ false

  -- The answer of a search: no entry before the end matches, or the last one of them that does.
  pub data IsLastMatch (regex : Bool) (text : List ℕ) (end : ℕ) : Option (Line × ℤ) → Type 0 where
    no_match : NoneMatches regex text 0 end → IsLastMatch regex text end none
    last_match :
        (i : ℕ) (line : Line)
        → i < end
        → get_elem? entries i ≡ some line
        → is_match matches regex text line ≡ true
        → NoneMatches regex text (suc i) end
        → IsLastMatch regex text end (some (line, pos i))

  NoneMatches-suc :
      (regex : Bool) (text : List ℕ) (from end : ℕ) (line : Line)
      → get_elem? entries end ≡ some line
      → is_match matches regex text line ≡ false
      → NoneMatches regex text from end
      → NoneMatches regex text from (suc end)
  unfolding NoneMatches
  NoneMatches-suc regex text from end line e n k i line' low high at =
      elim (Bool-cases (i == end)) [
        | inl b ↦ ground arith
        | inr b ↦ k i line' low (ground arith) at
      ]

  widen :
      (regex : Bool) (text : List ℕ) (end : ℕ) (line : Line) (r : Option (Line × ℤ))
      → get_elem? entries end ≡ some line
      → is_match matches regex text line ≡ false
      → IsLastMatch regex text end r
      → IsLastMatch regex text (suc end) r
  widen regex text end line none e n (no_match k) =
      no_match (NoneMatches-suc regex text 0 end line e n k)
  widen regex text end line r e n (last_match i line' lt at m k) =
      last_match i line' (omega arith) at m (NoneMatches-suc regex text (suc i) end line e n k)

  nothing_yet : (regex : Bool) (text : List ℕ) → NoneMatches regex text 0 0
  unfolding NoneMatches
  nothing_yet regex text i line low high at = absurd (omega arith)

  nothing_between : (regex : Bool) (text : List ℕ) (n : ℕ) → NoneMatches regex text (suc n) (suc n)
  unfolding NoneMatches
  nothing_between regex text n i line low high at = absurd (omega arith)

  pub step_back :
      (regex : Bool) (text : List ℕ) (n rounds : ℕ) (line : Line)
      → get_elem? entries n ≡ some line
      → match_loop matches entries text false regex (pos (suc n)) (suc rounds) ≡ (
          if is_match matches regex text line
          then some (some (line, pos n))
          else match_loop matches entries text false regex (pos n) rounds)
  unfolding match_loop
  step_back regex text n rounds line e =
      let inside : ltb_ℤ (pos 0) (pos (suc n)) ≡ true = ground arith in
      let at = -ℤ-one n in let found = get_line-in entries n line e in ground arith

  backward_loop :
      (regex : Bool) (text : List ℕ) (n rounds : ℕ)
      → n ≤ length entries
      → n < rounds
      → (r : Option (Line × ℤ)) × (match_loop matches entries text false regex (pos n) rounds
          ≡ some r)
        × IsLastMatch regex text n r
  unfolding match_loop
  backward_loop regex text n zero le lt = absurd (omega arith)
  backward_loop regex text zero (suc rounds) le lt = (none, refl, no_match (nothing_yet regex text))
  backward_loop regex text (suc n) (suc rounds) le lt =
      let (line, k) = get_elem?_lt entries n (omega arith) in
      let (r, e, last) = backward_loop regex text n rounds (omega arith) (omega arith) in
      let step = step_back regex text n rounds line k in
      elim (Bool-cases (is_match matches regex text line)) [
        | inl m ↦ (
          some (line, pos n),
          rw m at step,
          last_match n line (omega arith) k m (nothing_between regex text n),
        )
        | inr m ↦ (r, (rw m at step) ∙ e, widen regex text n line r k m last)
      ]

  -- Backward and without a position the search always returns: it finds the newest entry that matches
  -- the text of the line, cut at the position of the cursor in bytes, or that there is none.
  pub match-IsLastMatch :
      (hpos : ℤ) (line : Line) (cur : Option Cursor) (regex : Bool)
      → (r : Option (Line × ℤ)) × (match matches entries hpos line cur false false regex ≡ some r)
        × IsLastMatch regex (needle line cur) (length entries) r
  unfolding match
  match-IsLastMatch hpos line cur regex =
      backward_loop regex (needle line cur) (length entries) (length entries + 0 + 2) (omega arith)
        (omega arith)

  step_forward :
      (regex : Bool) (text : List ℕ) (n rounds : ℕ) (at : ℤ)
      → at +ℤ pos 1 ≡ pos n
      → ltb_ℤ at (pos (length entries)) ≡ true
      → NoneMatches regex text 0 (length entries)
      → 1 ≤ length entries
      → (suc n ≤ length entries → match_loop matches entries text true regex (pos n) rounds ≡ none)
      → match_loop matches entries text true regex at (suc rounds) ≡ none
  unfolding match_loop NoneMatches
  step_forward regex text n rounds at e inside none_match one later =
      elim (Bool-cases (ltb n (length entries))) [
        | inl b ↦
            let (line, k) = get_elem?_lt entries n (ground arith) in
            let found = get_line-in entries n line k in
            let skipped = none_match n line (omega arith) (ground arith) k in
            let rest = later (ground arith) in ground arith
        | inr b ↦ let beyond = get_line-beyond entries n one (ground arith) in ground arith
      ]

  forward_loop :
      (regex : Bool) (text : List ℕ) (n rounds : ℕ)
      → suc n ≤ length entries
      → NoneMatches regex text 0 (length entries)
      → match_loop matches entries text true regex (pos n) rounds ≡ none
  unfolding match_loop
  forward_loop regex text n zero le none_match = refl
  forward_loop regex text n (suc rounds) le none_match =
      step_forward regex text (suc n) rounds (pos n) (+ℤ-one n) (ground arith) none_match
        (omega arith) (λ le'. forward_loop regex text (suc n) rounds le' none_match)

  -- Forward and without a position, a search that matches no entry of a history that is not empty does
  -- not return, whatever the rounds: it reads behind the last entry, and panics.
  pub match-forward :
      (regex : Bool) (text : List ℕ) (rounds : ℕ)
      → 1 ≤ length entries
      → NoneMatches regex text 0 (length entries)
      → match_loop matches entries text true regex minus_one rounds ≡ none
  unfolding match_loop ◌+ℤ◌
  match-forward regex text zero one none_match = refl
  match-forward regex text (suc rounds) one none_match =
      step_forward regex text 0 rounds minus_one refl (ground arith) none_match one
        (λ le. forward_loop regex text 0 rounds le none_match)
