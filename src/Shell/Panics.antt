-- ===== src/Shell/Panics.antt =====
-- Where the commands index a slice by a numeric argument (vim.go, history.go).
use readline.Base.{
  ℕ, zero, suc, ◌+◌, ◌==◌, true, false, ltb, if◌then◌else◌, ◌≤◌, ◌<◌, ◌≡◌, ◌↔◌, ◌-◌, ◌≢◌, refl,
  none, some, List, [], ◌∷◌, arith, length, drop, get_elem?, ap, ◌∙◌, dec_lt, get_elem?_lt,
  get_elem?_ge,
}
use readline.Base.Int.{ℤ, pos, minus_one, negsuc, pos_part, ◌<ℤ◌, ◌+ℤ◌, ◌-ℤ◌, -ℤ_parts}
use readline.Core.Line.{Line}
use readline.Core.Cursor.{inc, index}
use readline.Core.Cursor.Checks.{IsValid, check_append_id}
use readline.Core.Cursor.Command.{cursor_at}
use readline.Core.Iterations.{Iterations, count_of, get, add, reset, int_limit}
use readline.Core.Iterations.Value.{Digits, number, typed, get-typed}
use readline.Shell.{Shell, Unicode, count}
use readline.Shell.Recalling.{last_words, word_at, yank_nth_arg}
use readline.Shell.ViMoving.{forward_loop}
use readline.Core.Search.Find.{Absent}

-- Behind a rune of a line without a newline behind it there is another rune that is no newline, or the end.
next_rune :
    (l : Line) (i : ℕ)
    → suc i < length l
    → Absent b'\n' (drop (suc i) l)
    → (r : ℕ) × (get_elem? l (suc i) ≡ some r)
      × ((r == b'\n') ≡ false)
      × Absent b'\n' (drop (suc (suc i)) l)
next_rune [] i h a = absurd (omega arith)
next_rune (x ∷ []) zero h a = absurd (omega arith)
next_rune (x ∷ (y ∷ l)) zero h a = (y, refl, ground (arith, a.0), a.1)
next_rune (x ∷ l) (suc i) h a = next_rune l i (omega arith) a

pub at-IsValid :
    (i j : ℕ) (m : ℤ) (l : Line)
    → IsValid (cursor_at i m l)
    → j ≤ length l
    → IsValid (cursor_at j m l)
at-IsValid i j m l v h = ground (arith, v)

index-next : (i : ℕ) (l : Line) → index l (pos i +ℤ pos 1) ≡ get_elem? l (suc i)
unfolding index ◌+ℤ◌
index-next i l = ground arith

inc_inside :
    (i : ℕ) (m : ℤ) (l : Line) → i < length l → inc (cursor_at i m l) ≡ cursor_at (suc i) m l
unfolding inc ◌+ℤ◌
inc_inside i m l h = ground arith

module _ (n i : ℕ) (m : ℤ) (l : Line) (v : IsValid (cursor_at i m l)) where
  forward_loop_step :
      (r : ℕ)
      → suc i < length l
      → get_elem? l (suc i) ≡ some r
      → (r == b'\n') ≡ false
      → forward_loop (suc n) (cursor_at i m l) ≡ forward_loop n (cursor_at (suc i) m l)
  unfolding forward_loop
  forward_loop_step r h e other =
      rw (forward_loop, check_append_id (cursor_at i m l) v, index-next i l, e, other)
        (ap (forward_loop n)
          (ap inc (check_append_id (cursor_at i m l) v) ∙ inc_inside i m l (omega arith)))

  forward_loop_end : length l ≤ suc i → forward_loop (suc n) (cursor_at i m l) ≡ none
  unfolding forward_loop
  forward_loop_end h =
      rw
        (
          forward_loop,
          check_append_id (cursor_at i m l) v,
          index-next i l,
          get_elem?_ge l (suc i) h,
        )
        refl

forward_loop-cases :
    (n i : ℕ) (m : ℤ) (l : Line)
    → IsValid (cursor_at i m l)
    → i < length l
    → Absent b'\n' (drop (suc i) l)
    → (i + n < length l → forward_loop n (cursor_at i m l) ≡ some (cursor_at (i + n) m l))
      × (length l ≤ i + n → forward_loop n (cursor_at i m l) ≡ none)
unfolding forward_loop
forward_loop-cases zero i m l v h a =
    (λ k. ap (λ j. some (cursor_at j m l)) (omega arith), λ k. absurd (omega arith))
forward_loop-cases (suc n) i m l v h a = elim (dec_lt (suc i) (length l)) [
  | no end ↦ (λ k. absurd (omega arith), λ k. forward_loop_end n i m l v (omega arith))
  | yes more ↦
      let (r, e, other, rest) = next_rune l i more a in
      let step = forward_loop_step n i m l v r more e other in
      let later =
        forward_loop-cases n (suc i) m l (at-IsValid i (suc i) m l v (omega arith)) more rest in
      (
        λ k. step ∙ later.0 (omega arith) ∙ ap (λ j. some (cursor_at j m l)) (omega arith),
        λ k. step ∙ later.1 (omega arith),
      )
]

-- From a valid cursor on a rune, without a newline behind it, the loop of `viForwardChar` goes forward
-- by the numeric argument if that many runes follow, and with a larger argument it panics.
pub forward_loop_lem :
    (n i : ℕ) (m : ℤ) (l : Line)
    → IsValid (cursor_at i m l)
    → i < length l
    → Absent b'\n' (drop (suc i) l)
    → forward_loop n (cursor_at i m l)
      ≡ (if ltb (i + n) (length l) then some (cursor_at (i + n) m l) else none)
forward_loop_lem n i m l v h a =
    let (inside, outside) = forward_loop-cases n i m l v h a in
    elim (dec_lt (i + n) (length l)) [
      | yes k ↦ let e : ltb (i + n) (length l) ≡ true = ground arith in rw e (inside k)
      | no k ↦ let e : ltb (i + n) (length l) ≡ false = ground arith in rw e (outside (omega arith))
    ]

at_least_one : {A : Type 0} (n : ℕ) (c : ℤ) → c ≡ (if n == 0 then pos 1 else pos n) → c <ℤ pos 1 → A
at_least_one n c e lt = absurd (ground (arith, e, lt))

below_one : (n : ℕ) (c : ℤ) → c ≡ (if n == 0 then minus_one else negsuc (n - 1)) → c <ℤ pos 1
below_one n c e = ground (arith, e)

module _ (u : Unicode) where
  yank_nth_arg-none :
      (rl : Shell) (w : Line) (ws : List Line)
      → last_words rl ≡ some (w ∷ ws)
      → (yank_nth_arg u rl ≡ none) ↔ (count_of rl.iterations.times <ℤ pos 1)
  unfolding yank_nth_arg count get word_at
  yank_nth_arg-none rl w ws e = rw e (
      ground (
        arith,
        get_elem?_lt (w ∷ ws) (pos_part (count_of rl.iterations.times -ℤ pos 1)),
        -ℤ_parts (count_of rl.iterations.times) (pos 1),
      ))

  -- When the last line of the history has words, and digits that stand for an int are typed after a
  -- reset, `yankNthArg` does not panic, also for the digit 0, which counts as 1; with a minus sign it
  -- panics, whatever the digits are.
  pub yank_nth_arg-typed :
      (rl : Shell) (i : Iterations) (w : Line) (ws : List Line) (d : ℕ) (ds : List ℕ)
      → last_words rl ≡ some (w ∷ ws)
      → Digits (d ∷ ds)
      → number 0 (d ∷ ds) < int_limit
      → (yank_nth_arg u (record rl { iterations = typed (reset i) (d ∷ ds) }) ≢ none)
        × (yank_nth_arg u (record rl { iterations = add (typed (reset i) (d ∷ ds)) (b'-' ∷ []) })
            ≡ none)
  unfolding last_words get
  yank_nth_arg-typed rl i w ws d ds e h lt =
      let (plus, minus) = get-typed i d ds h lt in
      let none_if = λ (r : Iterations). yank_nth_arg-none (record rl { iterations = r }) w ws e in
      (
        λ p. at_least_one (number 0 (d ∷ ds)) _ plus ((none_if (typed (reset i) (d ∷ ds))).0 p),
        (none_if (add (typed (reset i) (d ∷ ds)) (b'-' ∷ []))).1
            (below_one (number 0 (d ∷ ds)) _ minus),
      )
