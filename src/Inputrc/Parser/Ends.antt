-- ===== src/Inputrc/Parser/Ends.antt =====
-- When the parser panics (inputrc/parse.go): the reads of the stack of conditions, and the reads of a
-- line.
use readline.Base.{
  ◌∙◌, ℕ, suc, ◌≤◌, ◌≡◌, ◌≢◌, refl, sym, Bool, true, false, Option, none, some, List, [], ◌∷◌,
  length, arith, Bool-cases, Option-cases, ◌⊎◌, inl, inr, if◌then◌else◌,
}
use readline.Inputrc.Scan.{find_non_space}
use readline.Inputrc.Reader.{
  Text, Failure, plain, foreign, File, content, not_exist, unreadable, Handler, Parser, token_none,
  token_bind, token_bind_macro, token_set, token_construct, Read, statement, failed, read_next,
}
use readline.Inputrc.Parser.Types.{IsStore}
use readline.Inputrc.Parser.Typed.{AllTyped, IsReady, IsReady-IsKept}
use readline.Inputrc.Parser.Related.{parse-kept, parse_line-kept}
use readline.Base.Text.{codes}
use readline.Inputrc.Parser.{
  parse, Outside, Input, Result, do_bind, do_set, do_construct, run_statement, note_error,
  do_include, do_other, next, is_skipped, add_line, parse_line, parse_lines, include_parser,
}
use readline.Inputrc.Parser.Goes.{
  one-le-length, HasConds, Goes, Goes-some, Goes-answer, Goes-if, set_active-Goes,
}

module _ {S E : Type 0} (o : Outside) (h : Handler S E) where
  -- The line is skipped, or it is read without a panic.
  abbrev pub Reads : Parser E → Text → Type 0
  Reads p line =
      (is_skipped o h line ≡ true)
      ⊎ ((what : Read E) × (read_next o.unicode p line
              (find_non_space o.unicode line 0 (length line)) (length line)
            ≡ some what))

  unfoldable pub AllRead : List Text → Type 0
  AllRead [] = Unit
  AllRead (line ∷ lines) = ((p : Parser E) → Reads p line) × AllRead lines

module _ {S E : Type 0} (o : Outside) (h : Handler S E)
    (included : S → Parser E → Input → Option (Result o h)) (store : IsStore h)
    (files : Text → File E)
    (returns : (s : S) (p : Parser E) (val : Text) (bytes : List ℕ)
      → files (o.expand_path val) ≡ content bytes
      → IsReady o h store files s
      → included s p (o.scan_lines bytes) ≢ none)
    (kept : (s : S) (p : Parser E) (i : Input) (r : Result o h)
      → included s p i ≡ some r
      → IsReady o h store files s
      → IsReady o h store files r.0) where
  included-Goes :
      (p : Parser E) (x : Option (Result o h))
      → x ≢ none
      → HasConds p
      → Goes o h (elim x as (λ _. Option (Result o h)) [
        | none ↦ none
        | some (s', p', err) ↦ some (s', p, err)
      ])
  included-Goes p none n c = absurd (n refl)
  included-Goes p (some (s', p', err)) n c = Goes-some o h _ c

  read_file-Goes :
      (s : S) (p : Parser E) (val : Text) (file : File E)
      → h.read_file s (o.expand_path val) ≡ file
      → IsReady o h store files s
      → HasConds p
      → Goes o h (elim file as (λ _. Option (Result o h)) [
        | not_exist ↦ some (s, p, none)
        | unreadable e ↦ some (s, p, some (plain (foreign e)))
        | content bytes ↦ elim (included s (include_parser o h p val) (o.scan_lines bytes)) [
          | none ↦ none
          | some (s', p', err) ↦ some (s', p, err)
        ]
      ])
  read_file-Goes s p val not_exist k typed c = Goes-some o h _ c
  read_file-Goes s p val (unreadable e) k typed c = Goes-some o h _ c
  read_file-Goes s p val (content bytes) k typed c =
      included-Goes p (included s (include_parser o h p val) (o.scan_lines bytes))
        (returns s (include_parser o h p val) val bytes (sym (typed.finds (o.expand_path val)) ∙ k)
          typed)
        c

  do_construct-Goes :
      (s : S) (p : Parser E) (keyword val : Text) (conds : List Bool)
      → p.conds ≡ conds
      → IsReady o h store files s
      → HasConds p
      → Goes o h (do_construct o h included s p keyword val)
  unfolding do_construct do_include do_other
  do_construct-Goes s p keyword val [] e typed c = absurd (ground arith)
  do_construct-Goes s p keyword val (active ∷ rest) e typed c =
      let file = read_file-Goes s p val (h.read_file s (o.expand_path val)) refl typed c in
      record {
        some_result = ground (arith, file.some_result);
        conds = λ r e. ground (arith, file.conds r);
      }

  run_statement-Goes :
      (s : S) (p : Parser E) (conds : List Bool) (what : Read E)
      → p.conds ≡ conds
      → IsReady o h store files s
      → HasConds p
      → Goes o h (run_statement o h included s p what)
  unfolding run_statement do_bind do_set AllTyped
  run_statement-Goes s p conds (failed err) e typed c = Goes-some o h _ c
  run_statement-Goes s p conds (statement name val token_none) e typed c = Goes-some o h _ c
  run_statement-Goes s p [] (statement name val token_bind) e typed c = absurd (ground arith)
  run_statement-Goes s p (active ∷ rest) (statement name val token_bind) e typed c =
      let bound = Goes-answer o h p (h.bind s p.keymap name val false) c in
      record { some_result = ground arith; conds = λ r k. ground (arith, bound.conds r) }
  run_statement-Goes s p [] (statement name val token_bind_macro) e typed c = absurd (ground arith)
  run_statement-Goes s p (active ∷ rest) (statement name val token_bind_macro) e typed c =
      let bound = Goes-answer o h p (h.bind s p.keymap name val true) c in
      record { some_result = ground arith; conds = λ r k. ground (arith, bound.conds r) }
  run_statement-Goes s p [] (statement name val token_set) e typed c = absurd (ground arith)
  run_statement-Goes s p (active ∷ rest) (statement name val token_set) e typed c =
      let set = set_active-Goes o h s p name val (typed.typed name) c in
      record {
        some_result = ground (arith, set.some_result);
        conds = λ r k. ground (arith, set.conds r);
      }
  run_statement-Goes s p conds (statement name val token_construct) e typed c =
      do_construct-Goes s p name val conds e typed c

  note_error-HasConds : (r : Result o h) → HasConds r.1 → HasConds (note_error o h r).1
  unfolding note_error
  note_error-HasConds (s, p, none) c = c
  note_error-HasConds (s, p, some err) c = c

  parse_line-Goes :
      (s : S) (p : Parser E) (line : Text)
      → Reads o h p line
      → IsReady o h store files s
      → HasConds p
      → Goes o h (parse_line o h included s p line)
  unfolding parse_line next
  parse_line-Goes s p line (inl k) typed c = rw (parse_line, k) (Goes-some o h (s, p, none) c)
  parse_line-Goes s p line (inr (what, k)) typed c = elim (Bool-cases (is_skipped o h line)) [
    | inl b ↦ rw (parse_line, b) (Goes-some o h (s, p, none) c)
    | inr b ↦
        let run = run_statement-Goes s p p.conds what refl typed c in
        elim (Option-cases (run_statement o h included s p what)) [
          | inl n ↦ absurd (run.some_result n)
          | inr (r, n) ↦
              rw (parse_line, b, next, k, n)
                (Goes-some o h (note_error o h r) (note_error-HasConds r (run.conds r n)))
        ]
  ]

  add_line-HasConds : (p : Parser E) → HasConds p → HasConds (add_line o h p)
  unfolding add_line
  add_line-HasConds p c = c

  stop_or_go :
      (s : S) (p : Parser E) (err : Option (Failure E)) (rest : Option (Result o h))
      → HasConds p
      → Goes o h rest
      → Goes o h (elim err as (λ _. Option (Result o h)) [
        | none ↦ rest
        | some e ↦ if p.halt_on_err then some (s, p, some e) else rest
      ])
  stop_or_go s p none rest c g = g
  stop_or_go s p (some e) rest c g = Goes-if o h p.halt_on_err _ _ (Goes-some o h _ c) g

  parse_lines-Goes :
      (s : S) (p : Parser E) (lines : List Text) (broken : Bool)
      → AllRead o h lines
      → IsReady o h store files s
      → HasConds p
      → Goes o h (parse_lines o h included s p lines broken)
  unfolding parse_lines AllRead
  parse_lines-Goes s p [] true a typed c = Goes-some o h _ c
  parse_lines-Goes s p [] false a typed c = Goes-some o h _ c
  parse_lines-Goes s p (line ∷ lines) broken a typed c =
      let first = parse_line-Goes s p line (a.0 p) typed c in
      elim (Option-cases (parse_line o h included s p line)) [
        | inl n ↦ absurd (first.some_result n)
        | inr ((s', p', err), n) ↦
            let typed' =
              parse_line-kept o h _ (IsReady-IsKept o h store files) included kept s p line
                (s', p', err) n typed in
            let c' : HasConds p' = first.conds (s', p', err) n in
            let rest =
              parse_lines-Goes s' (add_line o h p') lines broken a.1 typed'
                (add_line-HasConds p' c') in
            rw (parse_lines, n)
              (stop_or_go s' p' err (parse_lines o h included s' (add_line o h p') lines broken) c'
                rest)
      ]

  parse_lines-Returns :
      (s : S) (p : Parser E) (lines : List Text) (broken : Bool)
      → AllRead o h lines
      → IsReady o h store files s
      → HasConds p
      → (r : Result o h) × (parse_lines o h included s p lines broken ≡ some r)
        × (1 ≤ length r.1.conds)
  parse_lines-Returns s p lines broken a typed c =
      let goes = parse_lines-Goes s p lines broken a typed c in
      elim (Option-cases (parse_lines o h included s p lines broken)) [
        | inl n ↦ absurd (goes.some_result n)
        | inr (r, n) ↦ (r, n, goes.conds r n)
      ]

-- If every line of the input that is not skipped is read without a panic, the depth is enough for the
-- files that the handler finds, and all variables have one of the three types at first, in a handler
-- that stores them as they are given to it, then `Parse` returns: the stack of conditions is never read
-- when it is empty, and is not empty in the end.
pub parse-Returns :
    {S E : Type 0} (o : Outside) (h : Handler S E) (depth : ℕ) (s : S) (p : Parser E)
    (lines : List Text) (broken : Bool) (store : IsStore h)
    → AllTyped h s
    → AllRead o h lines
    → ((s' : S) (p' : Parser E) (val : Text) (bytes : List ℕ)
        → h.read_file s (o.expand_path val) ≡ content bytes
        → IsReady o h store (h.read_file s) s'
        → parse o h depth s' p' (o.scan_lines bytes) ≢ none)
    → (r : Result o h) × (parse o h (suc depth) s p (lines, broken) ≡ some r)
      × (1 ≤ length r.1.conds)
unfolding parse
parse-Returns o h depth s p lines broken store typed a returns =
    parse_lines-Returns o h (parse o h depth) store (h.read_file s) returns
      (λ s' p' i r e. parse-kept o h _ (IsReady-IsKept o h store (h.read_file s)) depth s' p' i r e)
      s (record p { keymap = codes "emacs"; line = 1; conds = true ∷ []; errs = [] }) lines broken a
      (record { typed = typed; finds = λ path. refl }) (one-le-length true [])
