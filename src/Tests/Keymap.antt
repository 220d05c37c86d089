-- ===== src/Tests/Keymap.antt =====
-- Runs and examples of the keymap engine (internal/keymap).
use readline.Base.{ℕ, ◌≡◌, refl, true, false, Option, none, some, List, [], ◌∷◌, take, drop, length}
use readline.Base.Text.{codes}
use readline.Core.Keys.{Keys, peek_char, peek_key, pop_key, take_key, matched_prefix}
use readline.Core.Keys.Queue.{waiting}
use readline.Inputrc.Config.{Bind, Map, lookup, keymap_binds}
use readline.Inputrc.Reader.{Text}
use readline.Keymap.{Engine, no_bind, get_context_binds, mode_name}
use readline.Keymap.Matching.{
  match_bind, match_loop, sort_sequences, insert_sequence, comes_before, less, typed_for, bytes_of,
  convert_meta, extends_keys, bind_of,
}
use readline.Keymap.Dispatch.{
  dispatch_keys, dispatch_loop, make_match, popped, match_main, keep_main, insert_in_search,
  is_unset, is_escape_key, command_of_bind,
}
use readline.Keymap.Exact.{IsRead, dispatch_keys-IsRead}
use readline.Keymap.Incomplete.{match_main-waiting}
use readline.Shell.{no_mode, vi_command}
use readline.History.Match.{has_prefix}
use readline.Inputrc.Codes.{is_meta}

abbrev bound_to : Text → Bind
bound_to action = record { action = action; macro = false }

abbrev moves : Map Bind
moves =
    (codes "g", bound_to (codes "go"))
    ∷ (codes "ge", bound_to (codes "end"))
    ∷ (codes "ggg", bound_to (codes "top"))
    ∷ []

abbrev typing : List ℕ → Keys
typing keys = record { buf = keys; matched = []; macro_keys = []; must_wait = false }

abbrev engine : List ℕ → Engine ℕ
engine keys = record {
  local = no_mode;
  main = vi_command;
  prefixed = no_bind;
  active = no_bind;
  pending = [];
  skip = false;
  is_caller = false;
  non_inc_search = false;
  keys = typing keys;
  config = record {
    read_file_func = none;
    vars = [];
    binds = (codes "vi-command", moves) ∷ [];
    funcs = [];
  };
}

abbrev one_byte : ℕ → List ℕ
one_byte r = r ∷ []

abbrev first_byte : List ℕ → List ℕ × List ℕ
first_byte buf = (take 1 buf, drop 1 buf)

ge-match : match_bind one_byte (codes "ge") moves ≡ (bound_to (codes "end"), [])
unfolding match_bind match_loop sort_sequences insert_sequence comes_before less typed_for bytes_of
    convert_meta extends_keys bind_of lookup has_prefix is_meta
ge-match = refl

ge-peek : peek_char first_byte one_byte (typing (codes "gex")) ≡ some (codes "g")
unfolding peek_char
ge-peek = refl

dispatch_keys-IsRead_example :
    IsRead
      (dispatch_keys first_byte one_byte (engine (codes "gex")) moves)
      (bound_to (codes "end"))
      (codes "ge")
      (codes "ge")
      (codes "x")
dispatch_keys-IsRead_example =
    dispatch_keys-IsRead one_byte moves (bound_to (codes "end")) (codes "x") first_byte
      (engine (codes "gex")) 103 103 (codes "e") refl ge-peek ge-match refl

abbrev commands : Text → Option ℕ
commands action = some (length action)

gg-part : (match_main commands (λ b. b) first_byte one_byte (engine (codes "gg"))).by_prefix ≡ true
unfolding match_main keep_main insert_in_search is_unset is_escape_key command_of_bind dispatch_keys
    dispatch_loop make_match popped get_context_binds mode_name keymap_binds peek_char peek_key
    pop_key take_key matched_prefix match_bind match_loop sort_sequences insert_sequence
    comes_before less typed_for bytes_of convert_meta extends_keys bind_of lookup has_prefix is_meta
gg-part = refl

match_main-waiting_example :
    waiting (match_main commands (λ b. b) first_byte one_byte (engine (codes "gg"))).engine.keys
    ≡ waiting (engine (codes "gg")).keys
match_main-waiting_example =
    match_main-waiting (λ b. b) first_byte one_byte commands (engine (codes "gg")) gg-part
