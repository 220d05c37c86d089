-- ===== src/Keymap.antt =====
-- The keymap engine (internal/keymap/engine.go), and the binds that it takes (completion.go).
pub mod Matching
pub mod Dispatch
pub mod Pending
pub mod Exact
pub mod Incomplete
use readline.Base.{
  Bool, true, false, Option, none, some, List, [], ◌∷◌, eqb, if◌then◌else◌, is_empty, not,
}
use readline.Base.Text.{codes}
use readline.Core.Keys.{Keys}
use readline.Inputrc.Config.{Bind, Config, Map, keymap_binds, lookup}
use readline.Inputrc.Reader.{Text}
use readline.Shell.{
  Mode, no_mode, emacs, emacs_meta, emacs_ctrl_x, emacs_standard, vi_insert, vi, vi_command,
  vi_move, visual, vi_opp, isearch, menu_select,
}

-- The values of the modes, by which the binds are kept.
unfoldable pub mode_name : Mode → Text
mode_name no_mode = []
mode_name emacs = codes "emacs"
mode_name emacs_meta = codes "emacs-meta"
mode_name emacs_ctrl_x = codes "emacs-ctlx"
mode_name emacs_standard = codes "emacs-standard"
mode_name vi_insert = codes "vi-insert"
mode_name vi = codes "vi"
mode_name vi_command = codes "vi-command"
mode_name vi_move = codes "vi-move"
mode_name visual = codes "vi-visual"
mode_name vi_opp = codes "vi-opp"
mode_name isearch = codes "isearch"
mode_name menu_select = codes "menu-select"

-- `inputrc.Bind{}`
abbrev pub no_bind : Bind
no_bind = record { action = []; macro = false }

-- The commands are an argument of the functions that look them up.
pub record Engine (E : Type 0) : Type 0 where
  pub local : Mode
  pub main : Mode
  pub prefixed : Bind
  pub active : Bind
  pub pending : List Bind
  pub skip : Bool
  pub is_caller : Bool
  pub non_inc_search : Bool
  pub keys : Keys
  pub config : Config E

unfoldable pub isearch_commands : List Text
isearch_commands =
    codes "abort"
    ∷ codes "backward-delete-char"
    ∷ codes "backward-kill-word"
    ∷ codes "backward-kill-line"
    ∷ codes "unix-line-discard"
    ∷ codes "unix-word-rubout"
    ∷ codes "vi-unix-word-rubout"
    ∷ codes "clear-screen"
    ∷ codes "clear-display"
    ∷ codes "magic-space"
    ∷ codes "vi-movement-mode"
    ∷ codes "yank"
    ∷ codes "self-insert"
    ∷ codes "accept-and-infer-next-history"
    ∷ codes "accept-line"
    ∷ codes "accept-and-hold"
    ∷ codes "operate-and-get-next"
    ∷ codes "history-incremental-search-forward"
    ∷ codes "history-incremental-search-backward"
    ∷ codes "forward-search-history"
    ∷ codes "reverse-search-history"
    ∷ codes "history-search-forward"
    ∷ codes "history-search-backward"
    ∷ codes "history-substring-search-forward"
    ∷ codes "history-substring-search-backward"
    ∷ codes "incremental-forward-search-history"
    ∷ codes "incremental-reverse-search-history"
    ∷ []

unfoldable pub non_isearch_commands : List Text
non_isearch_commands =
    codes "abort"
    ∷ codes "accept-line"
    ∷ codes "backward-delete-char"
    ∷ codes "backward-kill-word"
    ∷ codes "backward-kill-line"
    ∷ codes "unix-line-discard"
    ∷ codes "unix-word-rubout"
    ∷ codes "vi-unix-word-rubout"
    ∷ codes "self-insert"
    ∷ []

unfoldable pub is_valid_command : Text → List Text → Bool
is_valid_command widget [] = false
is_valid_command widget (c ∷ commands) =
    if eqb widget c then true else is_valid_command widget commands

-- Whether a sequence is bound to one of the commands: the newest entry of a sequence is its bind.
unfoldable pub is_bound_to : Map Bind → List Text → Text → Bool
is_bound_to binds commands sequence = elim (lookup binds sequence) [
  | none ↦ false
  | some bind ↦ is_valid_command bind.action commands
]

unfoldable pub filter_binds : (Text → Bool) → Map Bind → Map Bind
filter_binds keep [] = []
filter_binds keep ((sequence, bind) ∷ binds) =
    if keep sequence then (sequence, bind) ∷ filter_binds keep binds else filter_binds keep binds

module _ {E : Type 0} where
  unfoldable pub restrict_commands : Engine E → Mode → List Text → Map Bind
  restrict_commands m mode commands =
      let binds = keymap_binds m.config (mode_name mode) in
      if is_empty commands then binds else filter_binds (is_bound_to binds commands) binds

  -- `getContextBinds`, of the main keymap and of the local one.
  unfoldable pub get_context_binds : Engine E → Bool → Map Bind
  get_context_binds m false = keymap_binds m.config (mode_name m.local)
  get_context_binds m true =
      let binds = keymap_binds m.config (mode_name m.main) in
      if is_empty binds then binds else elim m.local [
        | isearch ↦ restrict_commands m m.main isearch_commands
        | _ ↦ if m.non_inc_search then restrict_commands m m.main non_isearch_commands else binds
      ]
