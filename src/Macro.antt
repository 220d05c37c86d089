-- ===== src/Macro.antt =====
-- The macro engine (internal/macro/engine.go), over the stack of keys and the escapes of inputrc. The
-- hints and the two functions that print are left out. A map is the list of its entries, the newest
-- first. The parameters are those of the escapes.
pub mod Replay
use readline.Base.{
  ℕ, Bool, true, false, not, ◌&&◌, ◌||◌, List, [], ◌∷◌, ◌++◌, ◌==◌, leb, is_empty, if◌then◌else◌,
}
use readline.Core.Keys.{Keys, get_macro_keys, feed}
use readline.Inputrc.Escape.{escape_macro}
use readline.Inputrc.Unescape.{unescape}

pub record Engine : Type 0 where
  pub recording : Bool
  pub current : List ℕ
  pub current_key : ℕ
  pub macros : List (ℕ × List ℕ)
  pub started : Bool
  pub keys : Keys

unfoldable pub new_engine : Keys → Engine
new_engine k = record {
  recording = false;
  current = [];
  current_key = 0;
  macros = [];
  started = false;
  keys = k;
}

-- `macros[key]`: a missing one is empty.
unfoldable pub macro_of : List (ℕ × List ℕ) → ℕ → List ℕ
macro_of [] key = []
macro_of ((key', macro) ∷ rest) key = if key' == key then macro else macro_of rest key

unfoldable pub is_valid_macro_id : ℕ → Bool
is_valid_macro_id key =
    (leb b'a' key && leb key b'z')
    || ((leb b'A' key && leb key b'Z') || ((leb b'0' key && leb key b'9') || (key == b'"')))

unfoldable pub record_keys : Engine → Engine
record_keys e =
    let typed = get_macro_keys e.keys in
    if not e.recording || is_empty typed
    then e
    else record e { current = if e.started then e.current else e.current ++ typed; started = false }

unfoldable pub start_record : Engine → ℕ → Engine
start_record e key =
    if is_valid_macro_id key || (key == 0)
    then record e { current_key = key; started = true; recording = true }
    else e

-- `strings.ReplaceAll` of the two runes of an escaped escape.
unfoldable pub replace_escape : List ℕ → List ℕ
replace_escape [] = []
replace_escape (c ∷ []) = c ∷ []
replace_escape (c ∷ (d ∷ s)) =
    let both = replace_escape s in
    let one = replace_escape (d ∷ s) in if (c == b'\\') && (d == b'e') then 0x1b ∷ both else c ∷ one

unfoldable pub run_macro : Engine → ℕ → Engine
run_macro e key =
    let macro = macro_of e.macros key in
    if (not (is_valid_macro_id key) && not (key == 0)) || is_empty macro
    then e
    else record e { keys = feed e.keys false (replace_escape macro) }

module _ (to_upper : ℕ → ℕ) where
  unfoldable pub run_last_macro : Engine → Engine
  run_last_macro e =
      let macro = unescape to_upper (macro_of e.macros 0) in
      if is_empty e.macros || is_empty macro then e else record e { keys = feed e.keys false macro }

  module _ (is_print : ℕ → Bool) (hex : ℕ → List ℕ) where
    unfoldable pub stop_record : Engine → List ℕ → Engine
    stop_record e more =
        let macro = escape_macro to_upper is_print hex (e.current ++ more) in
        if is_empty e.current then record e { recording = false } else record e {
          recording = false;
          macros = (0, macro) ∷ (e.current_key, macro) ∷ e.macros;
          current = [];
        }
