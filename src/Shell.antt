-- ===== src/Shell.antt =====
-- The state that the commands of the shell work on (type `Shell` of shell.go, and readline.go), with the
-- keymaps of internal/keymap that they read. The selection holds the cursor and the line that all
-- parts point to: the cursor of the undo states is set from it in front of each call. No completion
-- is inserted, and no search is active, so that the commands work on the input line. `none` is a panic.
pub mod Moving
pub mod Pairs
pub mod Changing
pub mod Killing
pub mod Marking
pub mod Recalling
pub mod ViMoving
pub mod ViChanging
pub mod Sound
pub mod Steps
pub mod Safety
pub mod Restoring
pub mod Panics
pub mod Marks
pub mod PairDeletion
pub mod Transposing
use readline.Base.{
  ℕ, zero, suc, Bool, true, false, Option, none, some, length, if◌then◌else◌, ◌>>=◌,
}
use readline.Base.Int.{ℤ, pos, pos_part}
use readline.Core.Line.{Line}
use readline.Core.Cursor.{Cursor, get_pos, check_append, check_command}
use readline.Core.Selection.{Selection, line_of, with_line}
use readline.Core.Iterations.{Iterations, get, is_pending, reset_post_run}
use readline.Core.Keys.{Keys}
use readline.Editor.Buffers.{Buffers}
use readline.History.Undo.{Sources, save}
use readline.History.Sources.{History}

-- `Mode`, of the main keymap and of the local one, which may be unset.
pub data Mode : Type 0 where
  no_mode : Mode
  emacs : Mode
  emacs_meta : Mode
  emacs_ctrl_x : Mode
  emacs_standard : Mode
  vi_insert : Mode
  vi : Mode
  vi_command : Mode
  vi_move : Mode
  visual : Mode
  vi_opp : Mode
  isearch : Mode
  menu_select : Mode

-- The tables of package unicode, and `utf8.RuneLen`.
pub record Unicode : Type 0 where
  pub rune_len : ℕ → ℕ
  pub is_punct : ℕ → Bool
  pub is_letter : ℕ → Bool
  pub is_lower : ℕ → Bool
  pub to_lower : ℕ → ℕ
  pub to_upper : ℕ → ℕ

-- Two options of the configuration are the fields `autosuggest` and `autopairs`.
pub record Shell : Type 0 where
  pub selection : Selection
  pub history : History
  pub iterations : Iterations
  pub buffers : Buffers
  pub keys : Keys
  pub main : Mode
  pub local : Mode
  pub autosuggest : Bool
  pub autopairs : Bool

-- A command, which may panic.
abbrev pub Command : Type 0
Command = Shell → Option Shell

unfoldable pub line : Shell → Line
line rl = line_of rl.selection

unfoldable pub cursor : Shell → Cursor
cursor rl = rl.selection.cursor

unfoldable pub with_cursor : Shell → Cursor → Shell
with_cursor rl c = record rl { selection = record rl.selection { cursor = c } }

unfoldable pub with_buffer : Shell → Line → Shell
with_buffer rl l = record rl { selection = with_line rl.selection l }

-- `rl.cursor.Pos()`, which corrects the cursor.
unfoldable pub checked : Shell → Shell × ℤ
checked rl = let (c, at) = get_pos (cursor rl) in (with_cursor rl c, at)

unfoldable pub with_walking : Shell → Sources → Shell
with_walking rl w = record (with_cursor rl w.cursor) { history = record rl.history { walking = w } }

-- The undo states, with the cursor that they point to.
unfoldable pub walking : Shell → Sources
walking rl = record rl.history.walking { cursor = cursor rl }

unfoldable pub save_history : Command
save_history rl = do w ← save (walking rl); some (with_walking rl w)

unfoldable pub skip_save : Shell → Shell
skip_save rl = record rl {
  history = record rl.history { walking = record rl.history.walking { skip = true } };
}

-- An operation of the history on the cursor and the line of the shell.
unfoldable pub on_history : Shell → (History → Option History) → Option Shell
on_history rl f = do
  h ← f (record rl.history { walking = walking rl })
  some (record (with_cursor rl h.walking.cursor) { history = h })

unfoldable pub repeat : Command → ℕ → Command
repeat f zero rl = some rl
repeat f (suc n) rl = do rl' ← f rl; repeat f n rl'

-- `vii := rl.Iterations.Get()`
unfoldable pub count : Shell → Shell × ℤ
count rl = let (i, times) = get rl.iterations in (record rl { iterations = i }, times)

-- The loop over the numeric argument that most commands have.
unfoldable pub times : Command → Command
times f rl = repeat f (pos_part (count rl).1) (count rl).0

-- `IsEmacs`
unfoldable pub is_emacs : Mode → Bool
is_emacs emacs = true
is_emacs emacs_standard = true
is_emacs emacs_meta = true
is_emacs emacs_ctrl_x = true
is_emacs _ = false

unfoldable pub is_vi_insert : Mode → Bool
is_vi_insert vi_insert = true
is_vi_insert _ = false

-- The modes in which the cursor stands on a rune.
unfoldable pub is_vi_command : Mode → Bool
is_vi_command vi_command = true
is_vi_command vi_move = true
is_vi_command vi = true
is_vi_command _ = false

unfoldable pub is_visual : Mode → Bool
is_visual visual = true
is_visual _ = false

-- The last step of `execute`.
unfoldable pub check_cursor : Command
check_cursor rl =
    if is_vi_command rl.main
    then (do c ← check_command (cursor rl); some (with_cursor rl c))
    else some (with_cursor rl (check_append (cursor rl)))

-- `run` of a command outside an operator that is pending: the command, the check of the cursor, the
-- update of the numeric argument, and the save.
unfoldable pub run : Command → Command
run command rl = do
  rl' ← command rl
  rl'' ← check_cursor rl'
  save_history (record rl'' { iterations = reset_post_run rl''.iterations })
