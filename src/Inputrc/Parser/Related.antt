-- ===== src/Inputrc/Parser/Related.antt =====
-- What a parse does to the state of its handler (inputrc/parse.go): the state before and the state
-- behind it are in every relation that the calls of the handler keep.
use readline.Base.{
  ℕ, zero, suc, ◌≡◌, refl, sym, Bool, true, false, Option, none, some, List, [], ◌∷◌, arith,
  Bool-cases, Option-cases, inl, inr, length, ◌⊎◌,
}
use readline.Base.Text.{codes}
use readline.Inputrc.Scan.{find_non_space}
use readline.Inputrc.Reader.{
  Text, Handler, Parser, token_none, token_bind, token_bind_macro, token_set, token_construct, Read,
  statement, failed, read_next, File, plain, foreign, content, not_exist, unreadable,
}
use readline.Inputrc.Parser.{
  Outside, Input, Result, answer, do_bind, do_set, set_active, do_construct, run_statement,
  note_error, do_include, do_other, next, is_skipped, add_line, parse_line, parse_lines, parse,
  include_parser,
}

module _ {S E : Type 0} (o : Outside) (h : Handler S E) where
  pub record IsKept (R : S → S → Type 0) : Type 0 where
    pub same : (s : S) → R s s
    pub chain : (s s' s'' : S) → R s s' → R s' s'' → R s s''
    pub bind :
        (s : S) (keymap sequence action : Text) (macro : Bool)
        → R s (h.bind s keymap sequence action macro).0
    pub on_construct : (s : S) (name val : Text) → R s (h.on_construct s name val).0
    pub set_active :
        (s : S) (p : Parser E) (name val : Text) (r : Result o h)
        → set_active o h s p name val ≡ some r
        → R s r.0

  module _ (R : S → S → Type 0) (kept : IsKept R) where
    abbrev AllKept : (S → Parser E → Input → Option (Result o h)) → Type 0
    AllKept f = (s : S) (p : Parser E) (i : Input) (r : Result o h) → f s p i ≡ some r → R s r.0

    answer-state : (p : Parser E) (a : S × Option E) → (answer o h p a).0 ≡ a.0
    unfolding answer
    answer-state p (s, none) = refl
    answer-state p (s, some e) = refl

    note_error-state : (r : Result o h) → (note_error o h r).0 ≡ r.0
    unfolding note_error
    note_error-state (s, p, none) = refl
    note_error-state (s, p, some e) = refl

    rw_kept : (s s' s'' : S) → R s s' → s'' ≡ s' → R s s''
    rw_kept s s' s'' r e = rw e r

    do_bind-kept :
        (s : S) (p : Parser E) (sequence action : Text) (macro : Bool) (r : Result o h)
        → do_bind o h s p sequence action macro ≡ some r
        → R s r.0
    unfolding do_bind
    do_bind-kept s p sequence action macro r e =
        let a = h.bind s p.keymap sequence action macro in
        let state = answer-state p a in
        let ends : (r.0 ≡ s) ⊎ (r.0 ≡ a.0) = ground arith in
        elim ends [
          | inl k ↦ rw_kept s s r.0 (kept.same s) k
          | inr k ↦ rw_kept s a.0 r.0 (kept.bind s p.keymap sequence action macro) k
        ]

    do_set-kept :
        (s : S) (p : Parser E) (name val : Text) (r : Result o h)
        → do_set o h s p name val ≡ some r
        → R s r.0
    unfolding do_set
    do_set-kept s p name val r e =
        let ends : (r.0 ≡ s) ⊎ (set_active o h s p name val ≡ some r) = ground arith in
        elim ends [
          | inl k ↦ rw_kept s s r.0 (kept.same s) k
          | inr k ↦ kept.set_active s p name val r k
        ]

    do_other-kept :
        (s : S) (p : Parser E) (keyword val : Text) (r : Result o h)
        → do_other o h s p keyword val ≡ some r
        → R s r.0
    unfolding do_other
    do_other-kept s p keyword val r e =
        let state : r.0 ≡ (h.on_construct s keyword val).0 = ground arith in
        rw_kept s (h.on_construct s keyword val).0 r.0 (kept.on_construct s keyword val) state

    module _ (included : S → Parser E → Input → Option (Result o h)) (ok : AllKept included) where
      include-kept :
          (s : S) (p p' : Parser E) (i : Input) (r : Result o h) (x : Option (Result o h))
          → included s p' i ≡ x
          → elim x as (λ _. Option (Result o h)) [
            | none ↦ none
            | some (s', p', err) ↦ some (s', p, err)
          ]
            ≡ some r
          → R s r.0
      include-kept s p p' i r none k e = ground arith
      include-kept s p p' i r (some r') k e =
          let state : r.0 ≡ r'.0 = ground arith in rw_kept s r'.0 r.0 (ok s p' i r' k) state

      read_file-kept :
          (s : S) (p : Parser E) (val : Text) (file : File E) (r : Result o h)
          → elim file as (λ _. Option (Result o h)) [
            | not_exist ↦ some (s, p, none)
            | unreadable e ↦ some (s, p, some (plain (foreign e)))
            | content bytes ↦ elim (included s (include_parser o h p val) (o.scan_lines bytes)) [
              | none ↦ none
              | some (s', p', err) ↦ some (s', p, err)
            ]
          ]
            ≡ some r
          → R s r.0
      read_file-kept s p val not_exist r e = rw_kept s s r.0 (kept.same s) (ground arith)
      read_file-kept s p val (unreadable err) r e = rw_kept s s r.0 (kept.same s) (ground arith)
      read_file-kept s p val (content bytes) r e =
          include-kept s p (include_parser o h p val) (o.scan_lines bytes) r
            (included s (include_parser o h p val) (o.scan_lines bytes)) refl e

      do_include-kept :
          (s : S) (p : Parser E) (val : Text) (r : Result o h)
          → do_include o h included s p val ≡ some r
          → R s r.0
      unfolding do_include
      do_include-kept s p val r e = read_file-kept s p val (h.read_file s (o.expand_path val)) r e

      do_construct-kept :
          (s : S) (p : Parser E) (keyword val : Text) (r : Result o h)
          → do_construct o h included s p keyword val ≡ some r
          → R s r.0
      unfolding do_construct
      do_construct-kept s p keyword val r e =
          let ends : (r.0 ≡ s)
              ⊎ ((do_include o h included s p val ≡ some r)
                  ⊎ (do_other o h s p keyword val ≡ some r)) =
            ground arith in
          elim ends [
            | inl k ↦ rw_kept s s r.0 (kept.same s) k
            | inr (inl k) ↦ do_include-kept s p val r k
            | inr (inr k) ↦ do_other-kept s p keyword val r k
          ]

      run_statement-kept :
          (s : S) (p : Parser E) (what : Read E) (r : Result o h)
          → run_statement o h included s p what ≡ some r
          → R s r.0
      unfolding run_statement
      run_statement-kept s p (failed err) r e = rw_kept s s r.0 (kept.same s) (ground arith)
      run_statement-kept s p (statement name val token_none) r e =
          rw_kept s s r.0 (kept.same s) (ground arith)
      run_statement-kept s p (statement name val token_bind) r e =
          do_bind-kept s p name val false r e
      run_statement-kept s p (statement name val token_bind_macro) r e =
          do_bind-kept s p name val true r e
      run_statement-kept s p (statement name val token_set) r e = do_set-kept s p name val r e
      run_statement-kept s p (statement name val token_construct) r e =
          do_construct-kept s p name val r e

      pub parse_line-kept :
          (s : S) (p : Parser E) (line : Text) (r : Result o h)
          → parse_line o h included s p line ≡ some r
          → R s r.0
      unfolding parse_line next
      parse_line-kept s p line r e = elim (Bool-cases (is_skipped o h line)) [
        | inl k ↦
            let e' : some (s, p, none) ≡ some r = rw (parse_line, k) at e in
            rw_kept s s r.0 (kept.same s) (ground arith)
        | inr k ↦
            let begin = find_non_space o.unicode line 0 (length line) in
            elim (Option-cases (next o h included s p line begin (length line))) [
              | inl n ↦ let e' : none ≡ some r = rw (parse_line, k, n) at e in cc
              | inr (r', n) ↦ elim (Option-cases (read_next o.unicode p line begin (length line))) [
                | inl m ↦ let n' : none ≡ some r' = rw (next, m) at n in cc
                | inr (what, m) ↦
                    let run = run_statement-kept s p what r' (rw (next, m) at n) in
                    let e' : some (note_error o h r') ≡ some r = rw (parse_line, k, n) at e in
                    let same : note_error o h r' ≡ r = cc in
                    rw_kept s r'.0 r.0 run (rw (sym same) (note_error-state r'))
              ]
            ]
      ]

      parse_lines-kept :
          (s : S) (p : Parser E) (lines : List Text) (broken : Bool) (r : Result o h)
          → parse_lines o h included s p lines broken ≡ some r
          → R s r.0
      unfolding parse_lines
      parse_lines-kept s p [] true r e = rw_kept s s r.0 (kept.same s) (ground arith)
      parse_lines-kept s p [] false r e = rw_kept s s r.0 (kept.same s) (ground arith)
      parse_lines-kept s p (line ∷ lines) broken r e =
          elim (Option-cases (parse_line o h included s p line)) [
            | inl n ↦ let e' : none ≡ some r = rw (parse_lines, n) at e in cc
            | inr ((s', p', err), n) ↦
                let first = parse_line-kept s p line (s', p', err) n in
                let ends : (r.0 ≡ s')
                    ⊎ (parse_lines o h included s' (add_line o h p') lines broken ≡ some r) =
                  ground arith in
                elim ends [
                  | inl k ↦ rw_kept s s' r.0 first k
                  | inr k ↦
                      kept.chain s s' r.0 first
                        (parse_lines-kept s' (add_line o h p') lines broken r k)
                ]
          ]

    pub parse-kept :
        (depth : ℕ) (s : S) (p : Parser E) (input : Input) (r : Result o h)
        → parse o h depth s p input ≡ some r
        → R s r.0
    unfolding parse
    parse-kept zero s p input r e = ground arith
    parse-kept (suc depth) s p (lines, broken) r e =
        parse_lines-kept (parse o h depth) (λ s' p' i' r' e'. parse-kept depth s' p' i' r' e') s
          (record p { keymap = codes "emacs"; line = 1; conds = true ∷ []; errs = [] }) lines broken
          r e
