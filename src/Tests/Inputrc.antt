-- ===== src/Tests/Inputrc.antt =====
-- The theorems about package inputrc at concrete inputs, and runs of the models.
use readline.Base.{
  ℕ, ◌+◌, ◌-◌, ◌≤◌, ◌<◌, ◌≡◌, ◌≢◌, inr, refl, Bool, true, false, ◌&&◌, ◌||◌, Option, none, some,
  List, [], ◌∷◌, ◌==◌, ltb, leb, if◌then◌else◌, length, arith,
}
use readline.Core.Keys.{Keys, feed}
use readline.Macro.{
  Engine, new_engine, run_macro, run_last_macro, stop_record, macro_of, is_valid_macro_id,
  replace_escape,
}
use readline.Macro.Replay.{run_last_macro-stop_record}
use readline.Base.Int.{pos}
use readline.Base.Text.{codes}
use readline.Core.Iterations.{atoi, decimal, unsigned, signed}
use readline.Inputrc.Scan.{
  Unicode, find_non_space, non_space_loop, find_end, end_loop, grab, slice, find_string_end,
  string_loop,
}
use readline.Inputrc.Unescape.{unescape}
use readline.Inputrc.Unescape.RoundTrip.{unescape-escape}
use readline.Inputrc.Escape.{escape, escape_macro}
use readline.Inputrc.Reader.{
  Text, number, content, Handler, Parser, statement, token_construct, token_bind, token_set,
  read_next, read_symbols, place,
}
use readline.Inputrc.Parser.{
  Outside, Input, Result, parse, parse_line, parse_lines, is_skipped, next, run_statement, do_set,
  set_active, set_new, set_typed, is_keymap, answer, note_error, add_line, eval_if,
}
use readline.Inputrc.Unescape.Runes.{AllPlain, is_plain}
use readline.Inputrc.Escape.{escape_with, escape_rune, escape_default}
use readline.Inputrc.Codes.{is_control, is_meta, decontrol, demeta}
use readline.Inputrc.Parser.Conditions.{parse_line-inactive, nested_if}
use readline.Inputrc.Parser.Types.{KeepsKinds, parse-KeepsKinds}
use readline.Inputrc.Parser.Typed.{AllTyped}
use readline.Inputrc.Parser.Ends.{AllRead, parse-Returns}
use readline.Inputrc.Parser.Depth.{Includes, include_itself}
use readline.Inputrc.Config.Store.{config_handler-IsStore}
use readline.Inputrc.Reader.{has_prefix, is_quote}
use readline.Inputrc.Config.{
  config_read_file, Config, config_handler, new_config, config_get, config_set, config_bind, lookup,
  assign,
}

abbrev lower : ℕ → ℕ
lower c = if leb b'A' c && leb c b'Z' then c + 32 else c

abbrev upper : ℕ → ℕ
upper c = if leb b'a' c && leb c b'z' then c - 32 else c

abbrev printable : ℕ → Bool
printable c = leb 32 c && ltb c 127

abbrev no_hex : ℕ → List ℕ
no_hex c = []

abbrev ascii : Unicode
ascii = record {
  is_space = λ c. (c == b' ') || (c == b'\t');
  is_control = λ c. ltb c 32;
  to_upper = upper;
  to_lower = lower;
}

-- One line for each file.
abbrev outside : Outside
outside = record {
  unicode = ascii;
  scan_lines = λ bytes. (bytes ∷ [], false);
  expand_path = λ path. path;
}

abbrev parser : Parser ℕ
parser = record {
  halt_on_err = false;
  strict = true;
  name = [];
  app = [];
  term = [];
  mode = codes "vi";
  keymap = [];
  line = 1;
  conds = [];
  errs = [];
}

abbrev lines : List Text
lines =
    codes "$if mode=vi"
    ∷ codes "set keymap vi"
    ∷ codes "\"\\C-a\": end-of-line"
    ∷ codes "$else"
    ∷ codes "set width 7"
    ∷ codes "$endif"
    ∷ codes "set size 12"
    ∷ []

abbrev run_result : Option (Result outside (config_handler {E = ℕ}))
run_result = parse outside (config_handler {E = ℕ}) 1 new_config parser (lines, false)

abbrev set_line : Text
set_line = codes "set xx 10"

abbrev handler : Handler (Config ℕ) ℕ
handler = config_handler

abbrev ready : Parser ℕ
ready = record parser { keymap = codes "emacs"; conds = true ∷ [] }

abbrev after_set : Result outside handler
after_set = (
  record new_config { vars = (codes "xx", number (pos 10)) ∷ [] },
  record ready { line = 2 },
  none,
)

parse-run : parse outside handler 1 new_config parser (set_line ∷ [], false) ≡ some after_set
unfolding parse parse_lines parse_line is_skipped find_non_space non_space_loop next read_next
    read_symbols find_end end_loop grab slice find_string_end string_loop run_statement do_set
    set_active is_keymap set_new answer note_error add_line config_handler config_get config_set
    lookup assign new_config atoi decimal unsigned signed set_typed place
parse-run = refl

abbrev no_files : Config ℕ → Parser ℕ → Input → Option (Result outside handler)
no_files s p i = none

abbrev inactive : Parser ℕ
inactive = record ready { conds = false ∷ true ∷ [] }

left_out :
    parse_line outside handler no_files new_config inactive set_line
    ≡ some (new_config, inactive, none)
unfolding parse parse_lines parse_line is_skipped find_non_space non_space_loop next read_next
    read_symbols find_end end_loop grab slice find_string_end string_loop run_statement do_set
    note_error
left_out = refl

parse_line-inactive_example :
    (new_config {E = ℕ} ≡ new_config) × (inactive.keymap ≡ inactive.keymap)
parse_line-inactive_example =
    parse_line-inactive outside handler no_files new_config inactive set_line (true ∷ [])
      (new_config, inactive, none) refl left_out

nested_if_example :
    (p' : Parser ℕ) × (run_statement outside handler no_files new_config inactive
        (statement (codes "$if") (codes "mode=vi") token_construct)
      ≡ some (new_config, p', none))
    × (run_statement outside handler no_files new_config p'
          (statement (1 ∷ []) (codes "undo") token_bind)
        ≡ some (
            answer outside handler p'
              (config_bind new_config (codes "emacs") (1 ∷ []) (codes "undo") false, none)))
unfolding eval_if has_prefix config_handler
nested_if_example =
    nested_if outside handler no_files new_config inactive (codes "mode=vi") (1 ∷ []) (codes "undo")
      (true ∷ []) refl refl

parse-KeepsKinds_example : KeepsKinds outside handler config_handler-IsStore new_config after_set.0
parse-KeepsKinds_example =
    parse-KeepsKinds outside handler config_handler-IsStore 1 new_config parser
      (set_line ∷ [], false) after_set parse-run

new_config-AllTyped : AllTyped handler new_config
unfolding AllTyped config_handler config_get lookup new_config
new_config-AllTyped name = λ e. cc

set_line-AllRead : AllRead outside handler (set_line ∷ [])
unfolding AllRead parse parse_lines parse_line is_skipped find_non_space non_space_loop next
    read_next read_symbols find_end end_loop grab slice find_string_end string_loop run_statement
    do_set note_error
set_line-AllRead = ((λ p. inr (statement (codes "xx") (codes "10") token_set, refl)), tt)

no_file : (path : Text) (bytes : List ℕ) → handler.read_file new_config path ≢ content bytes
unfolding config_handler config_read_file new_config
no_file path bytes = λ e. cc

-- A handler that finds no file.
parse-Returns_example :
    (r : Result outside handler) × (parse outside handler 1 new_config parser (set_line ∷ [], false)
      ≡ some r)
    × (1 ≤ length r.1.conds)
parse-Returns_example =
    parse-Returns outside handler 0 new_config parser (set_line ∷ []) false config_handler-IsStore
      new_config-AllTyped set_line-AllRead (λ s' p' val bytes f t. absurd (no_file val bytes f))

abbrev include_line : Text
include_line = codes "$include ff"

abbrev with_file : Config ℕ
with_file = record new_config { read_file_func = some (λ name. content include_line) }

include_line-Includes : Includes outside handler include_line (codes "ff")
unfolding parse parse_lines parse_line is_skipped find_non_space non_space_loop next read_next
    read_symbols find_end end_loop grab slice find_string_end string_loop run_statement do_set
    note_error is_quote
include_line-Includes = (refl, λ p. refl)

finds_file : handler.read_file with_file (codes "ff") ≡ content include_line
unfolding config_handler config_read_file
finds_file = refl

include_itself_example : parse outside handler 9 with_file parser (include_line ∷ [], false) ≡ none
include_itself_example =
    include_itself outside handler with_file (codes "ff") include_line [] false include_line
      finds_file refl include_line-Includes 9 parser

upper-Keeps : (c : ℕ) → 64 ≤ c → c < 96 → upper c ≡ c
upper-Keeps c a b = ground arith

printable-Prints : (c : ℕ) → 32 ≤ c → c < 127 → printable c ≡ true
printable-Prints c a b = ground arith

abbrev control_keys : List ℕ
control_keys = 1 ∷ 27 ∷ b'"' ∷ 127 ∷ 225 ∷ b'x' ∷ []

escape-run : escape upper printable no_hex control_keys ≡ codes "\\C-A\\e\\\"\\C-?\\M-ax"
unfolding escape escape_with escape_rune escape_default is_control is_meta decontrol demeta
escape-run = refl

control_keys-AllPlain : AllPlain printable control_keys
unfolding AllPlain is_plain
control_keys-AllPlain = (refl, (refl, (refl, (refl, (refl, (refl, tt))))))

unescape-escape_example :
    (unescape upper (escape upper printable no_hex control_keys) ≡ control_keys)
    × (unescape upper (escape_macro upper printable no_hex control_keys) ≡ control_keys)
unescape-escape_example =
    unescape-escape upper printable no_hex upper-Keeps printable-Prints control_keys
      control_keys-AllPlain

abbrev no_keys : Keys
no_keys = record { buf = []; matched = []; macro_keys = []; must_wait = false }

abbrev recorded : Engine
recorded = record (new_engine no_keys) {
  recording = true;
  current = 1 ∷ b'x' ∷ [];
  current_key = b'q';
}

typed-AllPlain : AllPlain printable (1 ∷ b'x' ∷ 13 ∷ [])
unfolding AllPlain is_plain
typed-AllPlain = (refl, (refl, (refl, tt)))

run_last_macro-stop_record_example :
    (run_last_macro upper (stop_record upper printable no_hex recorded (13 ∷ []))).keys
    ≡ feed no_keys false (1 ∷ b'x' ∷ 13 ∷ [])
unfolding new_engine
run_last_macro-stop_record_example =
    run_last_macro-stop_record upper printable no_hex upper-Keeps printable-Prints recorded 1
      (b'x' ∷ []) (13 ∷ []) refl typed-AllPlain

-- By its letter, the return of the macro is fed as the two runes of its escape.
run_macro-return :
    (run_macro (stop_record upper printable no_hex recorded (13 ∷ [])) b'q').keys
    ≡ feed no_keys false (codes "\\C-Ax\\r")
unfolding run_macro stop_record macro_of is_valid_macro_id replace_escape new_engine escape_macro
    escape_with escape_rune escape_default is_control is_meta decontrol demeta feed
run_macro-return = refl
