-- ===== src/Inputrc/Parser.antt =====
-- The parser of inputrc files (inputrc/parse.go), over the handler that it calls. `none` is a panic, or
-- a chain of included files that is longer than the depth given. The reader is the list of its lines:
-- `bufio.Scanner` is a parameter, with a flag for its error. So is the expansion of `~` in a path.
pub mod Conditions
pub mod Goes
pub mod Ends
pub mod Related
pub mod Types
pub mod Typed
pub mod Depth
use readline.Base.{
  ℕ, zero, suc, ◌+◌, Bool, true, false, not, ◌||◌, Option, none, some, List, [], ◌∷◌, ◌++◌, ◌==◌,
  ltb, if◌then◌else◌, length, drop, get_or, eqb, map, ◌>>=◌,
}
use readline.Base.Int.{ℤ}
use readline.Base.Text.{codes}
use readline.Core.Iterations.{atoi}
use readline.Inputrc.Scan.{Unicode, find_non_space}
use readline.Inputrc.Reader.{
  Text, Error, Failure, parse_error, plain, invalid_keymap, invalid_editing_mode,
  else_without_matching_if, endif_without_matching_if, invalid_number, scan_failed, foreign, Value,
  flag, text, number, other, File, content, not_exist, unreadable, Handler, Parser, Token,
  token_none, token_bind, token_bind_macro, token_set, token_construct, Read, statement, failed,
  place, read_next, has_prefix,
}

unfoldable pub is_keymap : Text → Bool
is_keymap v =
    eqb v (codes "emacs")
    || (eqb v (codes "emacs-standard")
        || (eqb v (codes "emacs-meta")
            || (eqb v (codes "emacs-ctlx")
                || (eqb v (codes "vi")
                    || (eqb v (codes "vi-move")
                        || (eqb v (codes "vi-command") || eqb v (codes "vi-insert")))))))

-- The input that the scanner splits: its lines, and whether it failed behind them.
abbrev pub Input : Type 0
Input = List Text × Bool

-- What the library code around the parser does.
pub record Outside : Type 0 where
  pub unicode : Unicode
  pub scan_lines : List ℕ → Input
  pub expand_path : Text → Text

module _ {S E : Type 0} (o : Outside) (h : Handler S E) where
  -- The state of a parse, and the error of a call.
  abbrev pub Result : Type 0
  Result = S × Parser E × Option (Failure E)

  -- The answer of a method of the handler.
  unfoldable pub answer : Parser E → S × Option E → Result
  answer p (s, none) = (s, p, none)
  answer p (s, some e) = (s, p, some (plain (foreign e)))

  unfoldable pub do_bind : S → Parser E → Text → Text → Bool → Option Result
  do_bind s p sequence action is_macro = elim p.conds [
    | [] ↦ none
    | active ∷ rest ↦
        if not active
        then some (s, p, none)
        else some (answer p (h.bind s p.keymap sequence action is_macro))
  ]

  -- The value as the type of the variable that it is for.
  unfoldable pub set_typed : S → Parser E → Text → Text → Value → Option Result
  set_typed s p name value (flag b) = some (
      answer p (
        h.set_var s name
          (flag (eqb (map o.unicode.to_lower value) (codes "on") || eqb value (codes "1")))))
  set_typed s p name value (text t) = some (answer p (h.set_var s name (text value)))
  set_typed s p name value (number i) =
      let (n, bad) = atoi value in
      if bad
      then some (s, p, some (plain invalid_number))
      else some (answer p (h.set_var s name (number n)))
  set_typed s p name value other = none

  unfoldable pub set_new : S → Parser E → Text → Text → Option Result
  set_new s p name value =
      let (n, bad) = atoi value in
      let lower = map o.unicode.to_lower value in
      if not bad
      then some (answer p (h.set_var s name (number n)))
      else if eqb lower (codes "off")
      then some (answer p (h.set_var s name (flag false)))
      else if eqb lower (codes "on")
      then some (answer p (h.set_var s name (flag true)))
      else some (answer p (h.set_var s name (text value)))

  unfoldable pub set_active : S → Parser E → Text → Text → Option Result
  unfolding set_typed set_new is_keymap place
  set_active s p name value =
      if eqb name (codes "keymap")
      then if p.strict
        then if not (is_keymap value)
          then some (s, p, some (place p value invalid_keymap))
          else some (s, record p { keymap = value }, none)
        else some (s, record p { keymap = value }, none)
      else if eqb name (codes "editing-mode")
      then if eqb value (codes "emacs") || eqb value (codes "vi")
        then some (answer p (h.set_var s name (text value)))
        else some (s, p, some (place p value invalid_editing_mode))
      else elim (h.get_var s name) [
        | some old ↦ set_typed s p name value old
        | none ↦ set_new s p name value
      ]

  unfoldable pub do_set : S → Parser E → Text → Text → Option Result
  unfolding set_active
  do_set s p name value = elim p.conds [
    | [] ↦ none
    | active ∷ rest ↦ if not active then some (s, p, none) else set_active s p name value
  ]

  -- The test of an `$if`.
  unfoldable pub eval_if : Parser E → Text → Bool
  unfolding has_prefix
  eval_if p val =
      if has_prefix val (codes "mode=")
      then eqb (drop 5 val) p.mode
      else if has_prefix val (codes "term=")
      then eqb (drop 5 val) p.term
      else eqb (map o.unicode.to_lower val) p.app

  -- The parser of an included file.
  unfoldable pub include_parser : Parser E → Text → Parser E
  include_parser p name = record {
    halt_on_err = false;
    strict = false;
    name = name;
    app = p.app;
    term = p.term;
    mode = p.mode;
    keymap = [];
    line = 1;
    conds = [];
    errs = [];
  }

  -- `$include` and any other construct, where the condition holds. `included` parses a file.
  unfoldable pub do_include :
      (S → Parser E → Input → Option Result) → S → Parser E → Text → Option Result
  unfolding include_parser
  do_include included s p val = elim (h.read_file s (o.expand_path val)) [
    | not_exist ↦ some (s, p, none)
    | unreadable e ↦ some (s, p, some (plain (foreign e)))
    | content bytes ↦ elim (included s (include_parser p val) (o.scan_lines bytes)) [
      | none ↦ none
      | some (s', p', err) ↦ some (s', p, err)
    ]
  ]

  unfoldable pub do_other : S → Parser E → Text → Text → Option Result
  unfolding place
  do_other s p keyword val =
      let (s', err) = h.on_construct s keyword val in
      some (
        s',
        p,
        elim err [ none ↦ none | some e ↦ some (place p (keyword ++ b' ' ∷ val) (foreign e)) ],
      )

  unfoldable pub do_construct :
      (S → Parser E → Input → Option Result) → S → Parser E → Text → Text → Option Result
  unfolding eval_if do_include do_other place
  do_construct included s p keyword val =
      if eqb keyword (codes "$if")
      then some (s, record p { conds = eval_if p val ∷ p.conds }, none)
      else if eqb keyword (codes "$else")
      then elim p.conds [
        | [] ↦ none
        | active ∷ [] ↦ some (s, p, some (place p (codes "$else") else_without_matching_if))
        | active ∷ (outer ∷ rest) ↦ some (s, record p { conds = not active ∷ outer ∷ rest }, none)
      ]
      else if eqb keyword (codes "$endif")
      then elim p.conds [
        | [] ↦ none
        | active ∷ [] ↦ some (s, p, some (place p (codes "$endif") endif_without_matching_if))
        | active ∷ (outer ∷ rest) ↦ some (s, record p { conds = outer ∷ rest }, none)
      ]
      else elim p.conds [
        | [] ↦ none
        | active ∷ rest ↦
            if not active
            then some (s, p, none)
            else if eqb keyword (codes "$include")
            then do_include included s p val
            else do_other s p keyword val
      ]

  -- The statement that was read, by its token.
  unfoldable pub run_statement :
      (S → Parser E → Input → Option Result) → S → Parser E → Read E → Option Result
  run_statement included s p (failed err) = some (s, p, some err)
  run_statement included s p (statement name val token_none) = some (s, p, none)
  run_statement included s p (statement name val token_bind) = do_bind s p name val false
  run_statement included s p (statement name val token_bind_macro) = do_bind s p name val true
  run_statement included s p (statement name val token_set) = do_set s p name val
  run_statement included s p (statement name val token_construct) =
      do_construct included s p name val

  unfoldable pub next :
      (S → Parser E → Input → Option Result) → S → Parser E → Text → ℕ → ℕ → Option Result
  next included s p seq pos end = do
    what ← read_next o.unicode p seq pos end
    run_statement included s p what

  -- A blank line, or a comment.
  unfoldable pub is_skipped : Text → Bool
  is_skipped line =
      let pos = find_non_space o.unicode line 0 (length line) in
      let c = get_or line pos 0 in
      (pos == length line) || ((c == 0) || ((c == b'\r') || ((c == b'\n') || (c == b'#'))))

  unfoldable pub add_line : Parser E → Parser E
  add_line p = record p { line = p.line + 1 }

  unfoldable pub note_error : Result → Result
  note_error (s, p, none) = (s, p, none)
  note_error (s, p, some err) = (s, record p { errs = p.errs ++ err ∷ [] }, some err)

  unfoldable pub parse_line :
      (S → Parser E → Input → Option Result) → S → Parser E → Text → Option Result
  unfolding is_skipped note_error
  parse_line included s p line = if is_skipped line then some (s, p, none) else do
    r ← next included s p line (find_non_space o.unicode line 0 (length line)) (length line)
    some (note_error r)

  -- The loop of `Parse`, and the error of the scanner behind it.
  unfoldable pub parse_lines :
      (S → Parser E → Input → Option Result) → S → Parser E → List Text → Bool → Option Result
  unfolding add_line
  parse_lines included s p [] true =
      some (s, record p { errs = p.errs ++ plain scan_failed ∷ [] }, some (plain scan_failed))
  parse_lines included s p [] false = some (s, p, none)
  parse_lines included s p (line ∷ lines) broken = do
    (s', p', err) ← parse_line included s p line
    let rest = parse_lines included s' (add_line p') lines broken
    elim err [ none ↦ rest | some e ↦ if p'.halt_on_err then some (s', p', some e) else rest ]

  -- `Parse`: the parser's state is reset first. Included files nest up to the given depth.
  unfoldable pub parse : ℕ → S → Parser E → Input → Option Result
  parse zero s p input = none
  parse (suc depth) s p (lines, broken) =
      parse_lines (parse depth) s
        (record p { keymap = codes "emacs"; line = 1; conds = true ∷ []; errs = [] }) lines broken
