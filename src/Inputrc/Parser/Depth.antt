-- ===== src/Inputrc/Parser/Depth.antt =====
-- The depth of included files (inputrc/parse.go).
use readline.Base.{
  ℕ, zero, suc, ◌≡◌, refl, Bool, true, false, Option, none, some, List, [], ◌∷◌, length,
}
use readline.Base.Text.{codes}
use readline.Inputrc.Scan.{find_non_space}
use readline.Inputrc.Reader.{Text, Handler, Parser, token_construct, statement, read_next, content}
use readline.Inputrc.Parser.{
  Outside, Input, Result, do_construct, run_statement, do_include, next, is_skipped, parse_line,
  parse_lines, parse, include_parser,
}

module _ {S E : Type 0} (o : Outside) (h : Handler S E) where
  -- The line is read as an `$include` of the file.
  abbrev pub Includes : Text → Text → Type 0
  Includes line file =
      (is_skipped o h line ≡ false)
      × ((p : Parser E)
          → read_next o.unicode p line (find_non_space o.unicode line 0 (length line)) (length line)
            ≡ some (statement (codes "$include") file token_construct))

  module _ (included : S → Parser E → Input → Option (Result o h)) where
    include_fails :
        (s : S) (p : Parser E) (file line : Text) (lines : List Text) (broken : Bool)
        (bytes : List ℕ)
        → p.conds ≡ true ∷ []
        → h.read_file s (o.expand_path file) ≡ content bytes
        → Includes line file
        → included s (include_parser o h p file) (o.scan_lines bytes) ≡ none
        → parse_lines o h included s p (line ∷ lines) broken ≡ none
    unfolding parse_lines parse_line next run_statement do_construct
    include_fails s p file line lines broken bytes c f i n =
        let fails : do_include o h included s p file ≡ none = rw (do_include, f, n) refl in
        let runs : run_statement o h included s p
              (statement (codes "$include") file token_construct)
            ≡ none =
          rw (run_statement, do_construct, c, fails) refl in
        rw (parse_lines, parse_line, i.0, next, i.1 p, runs) refl

  -- A file that begins with an `$include` of itself is parsed without end: no depth is enough.
  pub include_itself :
      (s : S) (file line : Text) (lines : List Text) (broken : Bool) (bytes : List ℕ)
      → h.read_file s (o.expand_path file) ≡ content bytes
      → o.scan_lines bytes ≡ (line ∷ lines, broken)
      → Includes line file
      → (depth : ℕ) (p : Parser E) → parse o h depth s p (line ∷ lines, broken) ≡ none
  unfolding parse
  include_itself s file line lines broken bytes f l i zero p = refl
  include_itself s file line lines broken bytes f l i (suc depth) p =
      let p' : Parser E = record p {
        keymap = codes "emacs";
        line = 1;
        conds = true ∷ [];
        errs = [];
      } in
      let deeper =
        include_itself s file line lines broken bytes f l i depth (include_parser o h p' file) in
      include_fails (parse o h depth) s p' file line lines broken bytes refl f i (rw l deeper)
