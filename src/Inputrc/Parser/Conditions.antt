-- ===== src/Inputrc/Parser/Conditions.antt =====
-- The stack of conditions (inputrc/parse.go).
use readline.Base.{
  ℕ, ◌≡◌, sym, Bool, true, false, Option, none, some, List, ◌∷◌, length, arith, Bool-cases,
  Option-cases, inl, inr,
}
use readline.Base.Text.{codes}
use readline.Inputrc.Scan.{find_non_space}
use readline.Inputrc.Reader.{
  Text, Handler, Parser, token_none, token_bind, token_bind_macro, token_set, token_construct, Read,
  statement, failed, read_next,
}
use readline.Inputrc.Parser.{
  Outside, Input, Result, answer, do_bind, do_set, do_construct, run_statement, note_error, next,
  is_skipped, parse_line, eval_if,
}

module _ {S E : Type 0} (o : Outside) (h : Handler S E)
    (included : S → Parser E → Input → Option (Result o h)) where
  -- What a statement may change where its condition fails: the conditions and the errors.
  record IsInert (s : S) (p : Parser E) (r : Result o h) : Type 0 where
    state : r.0 ≡ s
    keymap : r.1.keymap ≡ p.keymap

  do_construct-IsInert :
      (s : S) (p : Parser E) (keyword val : Text) (rest : List Bool) (r : Result o h)
      → p.conds ≡ false ∷ rest
      → do_construct o h included s p keyword val ≡ some r
      → IsInert s p r
  unfolding do_construct
  do_construct-IsInert s p keyword val rest r c e = ground arith

  run_statement-IsInert :
      (s : S) (p : Parser E) (what : Read E) (rest : List Bool) (r : Result o h)
      → p.conds ≡ false ∷ rest
      → run_statement o h included s p what ≡ some r
      → IsInert s p r
  unfolding run_statement do_bind do_set
  run_statement-IsInert s p (failed err) rest r c e = ground arith
  run_statement-IsInert s p (statement name val token_none) rest r c e = ground arith
  run_statement-IsInert s p (statement name val token_bind) rest r c e = ground arith
  run_statement-IsInert s p (statement name val token_bind_macro) rest r c e = ground arith
  run_statement-IsInert s p (statement name val token_set) rest r c e = ground arith
  run_statement-IsInert s p (statement name val token_construct) rest r c e =
      do_construct-IsInert s p name val rest r c e

  next-IsInert :
      (s : S) (p : Parser E) (seq : Text) (pos end : ℕ) (rest : List Bool) (r : Result o h)
      → p.conds ≡ false ∷ rest
      → next o h included s p seq pos end ≡ some r
      → IsInert s p r
  unfolding next
  next-IsInert s p seq pos end rest r c e =
      elim (Option-cases (read_next o.unicode p seq pos end)) [
        | inl k ↦ let e' : none ≡ some r = rw (next, k) at e in cc
        | inr (what, k) ↦ run_statement-IsInert s p what rest r c (rw (next, k) at e)
      ]

  note_error-inert :
      (s : S) (p : Parser E) (r : Result o h)
      → IsInert s p r
      → ((note_error o h r).0 ≡ s) × ((note_error o h r).1.keymap ≡ p.keymap)
  unfolding note_error
  note_error-inert s p (s', p', none) i = (i.state, i.keymap)
  note_error-inert s p (s', p', some err) i = (i.state, i.keymap)

  -- Where the innermost condition fails, a line changes neither the handler's state nor the key map,
  -- whatever it holds and whether or not it is an error.
  pub parse_line-inactive :
      (s : S) (p : Parser E) (line : Text) (rest : List Bool) (r : Result o h)
      → p.conds ≡ false ∷ rest
      → parse_line o h included s p line ≡ some r
      → (r.0 ≡ s) × (r.1.keymap ≡ p.keymap)
  unfolding parse_line
  parse_line-inactive s p line rest r c e = elim (Bool-cases (is_skipped o h line)) [
    | inl k ↦ let e' : some (s, p, none) ≡ some r = rw (parse_line, k) at e in ground arith
    | inr k ↦
        elim (Option-cases (
          next o h included s p line (find_non_space o.unicode line 0 (length line))
            (length line))) [
              | inl n ↦ let e' : none ≡ some r = rw (parse_line, k, n) at e in cc
              | inr (r', n) ↦
                  let inert =
                    next-IsInert s p line (find_non_space o.unicode line 0 (length line))
                      (length line) rest r' c n in
                  let e' : some (note_error o h r') ≡ some r = rw (parse_line, k, n) at e in
                  let same : note_error o h r' ≡ r = cc in
                  rw (sym same) (note_error-inert s p r' inert)
            ]
  ]

  -- An `$if` inside of a part that is left out opens an active part if its own test holds: a bind in it
  -- reaches the handler.
  pub nested_if :
      (s : S) (p : Parser E) (val sequence action : Text) (rest : List Bool)
      → p.conds ≡ false ∷ rest
      → eval_if o h p val ≡ true
      → (p' : Parser E) × (run_statement o h included s p
            (statement (codes "$if") val token_construct)
          ≡ some (s, p', none))
        × (run_statement o h included s p' (statement sequence action token_bind)
            ≡ some (answer o h p' (h.bind s p.keymap sequence action false)))
  unfolding run_statement do_construct do_bind
  nested_if s p val sequence action rest c t =
      (record p { conds = true ∷ p.conds }, ground arith, ground arith)
