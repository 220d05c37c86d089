-- ===== src/Tests/Shell.antt =====
-- The theorems about the commands at concrete inputs, and runs of the models.
use readline.Core.Iterations.{reset, add}
use readline.Core.Iterations.Value.{Digits, typed}
use readline.Base.{
  ◌≢◌, ltb, inr, if◌then◌else◌, ℕ, ◌+◌, ◌-◌, ◌<◌, ◌≡◌, inr, inl, refl, true, false, ◌&&◌, ◌||◌,
  none, some, List, [], ◌∷◌, ◌++◌, leb, length, arith, if◌then◌else◌, take, drop,
}
use readline.Base.Int.{ℤ, pos, minus_one, ◌-ℤ◌}
use readline.Core.Line.{Line, cut_rune}
use readline.Core.Cursor.{Cursor, dec, insert_at}
use readline.Core.Cursor.Checks.{IsValid}
use readline.Core.Cursor.Command.{cursor_at}
use readline.Core.Selection.{new_selection, line_of}
use readline.Core.Surround.{match_surround}
use readline.Strutil.Quotes.{surround_type}
use readline.Editor.Buffers.{new_buffers, write}
use readline.Editor.Buffers.Ring.{IsRing}
use readline.History.Undo.{empty_history, get_line_history}
use readline.History.Sources.{History, get_last, with_current}
use readline.History.Match.{get_line}
use readline.Strutil.Split.{split, split_loop, start, split_word, step}
use readline.Shell.{Shell, Unicode, emacs, no_mode, line, cursor}
use readline.Shell.Sound.{IsSound}
use readline.Shell.Safety.{
  Action, play, kill_end, yank_kill, delete, transpose, command_mode, delete_rune, insert_mode,
}
use readline.Shell.Safety.Session.{play-IsSound}
use readline.Shell.Restoring.{NoNull}
use readline.Shell.Restoring.KillLine.{kill_line-yank}
use readline.Shell.Killing.{kill_line, yank}
use readline.Shell.Marking.{set_mark_command}
use readline.Shell.Changing.{transpose_chars}
use readline.Shell.Transposing.{IsSwapped, transpose_chars-IsSwapped}
use readline.Shell.Pairs.{autopair_insert_or_jump, autopair_delete}
use readline.Shell.PairDeletion.{autopair_delete-autopair_insert}
use readline.Shell.ViMoving.{forward_loop}
use readline.Shell.ViChanging.{vi_kill_line}
use readline.Shell.Recalling.{last_words, words_of, yank_nth_arg}
use readline.Shell.Marks.{Leaves, set_mark_command_lem, vi_kill_line_lem}
use readline.Shell.Panics.{forward_loop_lem, yank_nth_arg-typed}

-- One byte for each rune, the letters a to z and A to Z.
abbrev ascii : Unicode
ascii = record {
  rune_len = λ r. 1;
  is_punct = λ r. false;
  is_letter = λ r. (leb b'a' r && leb r b'z') || (leb b'A' r && leb r b'Z');
  is_lower = λ r. leb b'a' r && leb r b'z';
  to_lower = λ r. if leb b'A' r && leb r b'Z' then r + 32 else r;
  to_upper = λ r. if leb b'a' r && leb r b'z' then r - 32 else r;
}

abbrev abcd : Line
abcd = b'a' ∷ b'b' ∷ b'c' ∷ b'd' ∷ []

abbrev history : History
history = record {
  walking = record {
    cursor = cursor_at 2 minus_one abcd;
    current = none;
    hpos = minus_one;
    skip = false;
    undoing = false;
    lines = λ name key. empty_history;
    spare = λ items. [];
  };
  sources = record {
    list = record { name = 1 ∷ []; entries = (b'l' ∷ b's' ∷ b' ' ∷ b'x' ∷ []) ∷ [] } ∷ [];
    names = (1 ∷ []) ∷ [];
    source_pos = pos 0;
  };
  max_entries = pos 500;
  cpos = minus_one;
  infer = false;
  accepted = false;
  accept_hold = false;
  accept_line = [];
  accept_err = none;
  preserve_point = false;
  revert_all = false;
}

-- The line abcd, with the cursor on the third rune and the mark at a position.
abbrev shell_with : ℤ → List ℕ → Shell
shell_with mark times = record {
  selection = new_selection (cursor_at 2 mark abcd);
  history = history;
  iterations = record { times = times; active = false; pending = false };
  buffers = new_buffers;
  keys = record { buf = []; matched = []; macro_keys = []; must_wait = false };
  main = emacs;
  local = no_mode;
  autosuggest = false;
  autopairs = true;
}

abbrev shell : Shell
shell = shell_with minus_one []

no_states : get_line_history history.walking ≡ empty_history
unfolding get_line_history
no_states = refl

shell-IsSound :
    (mark : ℤ) (times : List ℕ) → IsValid (cursor_at 2 mark abcd) → IsSound (shell_with mark times)
unfolding cursor new_selection
shell-IsSound mark times v = record {
  steady = record {
    no_surrounds = refl;
    kept = record { not_undoing = refl; in_range = rw no_states (0, refl, omega arith) };
  };
  valid = v;
}

unmarked : IsValid (cursor_at 2 minus_one abcd)
unmarked = record {
  pos_from = omega arith;
  pos_to = omega arith;
  mark_from = omega arith;
  mark_to = inl refl;
}

marked : IsValid (cursor_at 2 (pos 1) abcd)
marked = record {
  pos_from = omega arith;
  pos_to = omega arith;
  mark_from = omega arith;
  mark_to = inr (omega arith);
}

abbrev session : List Action
session = kill_end ∷ yank_kill ∷ transpose ∷ command_mode ∷ delete_rune ∷ insert_mode ∷ delete ∷ []

play-IsSound_example : (rl : Shell) × (play ascii session shell ≡ some rl) × IsSound rl
play-IsSound_example = play-IsSound ascii session shell (shell-IsSound minus_one [] unmarked)

buffers-IsRing : IsRing new_buffers []
unfolding new_buffers
buffers-IsRing = record { stack = record { at = λ j. refl; count = refl }; bound = omega arith }

none_selected : new_buffers.selected ≡ false
unfolding new_buffers
none_selected = refl

shell_line : line shell ≡ abcd
unfolding line line_of new_selection
shell_line = refl

shell_cursor : (mark : ℤ) (times : List ℕ) → cursor (shell_with mark times) ≡ cursor_at 2 mark abcd
unfolding cursor new_selection
shell_cursor mark times = refl

shell_visual : shell.selection.visual ≡ false
unfolding new_selection
shell_visual = refl

marked_visual : (shell_with (pos 1) []).selection.visual ≡ false
unfolding new_selection
marked_visual = refl

abcd_plain : NoNull abcd
abcd_plain = (
  λ e. absurd (omega arith),
  (λ e. absurd (omega arith), (λ e. absurd (omega arith), (λ e. absurd (omega arith), tt))),
)

kill_line-yank_example :
    (k : Shell) × (y : Shell) × (kill_line ascii shell ≡ some k)
    × (length (line k) < length (line shell))
    × (yank k ≡ some y)
    × (line y ≡ line shell)
kill_line-yank_example =
    kill_line-yank ascii shell 2 b'c' [] (shell-IsSound minus_one [] unmarked) shell_visual
      buffers-IsRing none_selected (rw shell_line abcd_plain) (rw (shell_cursor minus_one []) refl)
      (rw shell_line refl) (omega arith)

transpose_chars-IsSwapped_example :
    (k : Shell) × (transpose_chars shell ≡ some k)
    × IsSwapped shell k (b'a' ∷ []) (b'd' ∷ []) b'b' b'c'
transpose_chars-IsSwapped_example =
    transpose_chars-IsSwapped shell (b'a' ∷ []) (b'd' ∷ []) b'b' b'c' 2
      (shell-IsSound minus_one [] unmarked) shell_line (rw (shell_cursor minus_one []) refl)
      (omega arith) (inr refl)

none_typed : shell.iterations.times ≡ []
none_typed = refl

set_mark_command_lem_example :
    Leaves (set_mark_command shell) (if shell.iterations.active then pos 2 else pos 1) (pos 2)
set_mark_command_lem_example =
    set_mark_command_lem shell 2 (shell-IsSound minus_one [] unmarked) (rw shell_line (omega arith))
      (rw (shell_cursor minus_one []) refl) (inr none_typed)

vi_kill_line_lem_example :
    (k : Shell) × (vi_kill_line ascii (shell_with (pos 1) []) ≡ some k)
    × (line k ≡ take 1 (line (shell_with (pos 1) [])))
    × (k.buffers
        ≡ write ascii.is_letter ascii.to_lower
            (shell_with (pos 1) []).buffers
            (drop 1 (line (shell_with (pos 1) []))))
vi_kill_line_lem_example =
    vi_kill_line_lem ascii (shell_with (pos 1) []) 2 1 (shell-IsSound (pos 1) [] marked)
      marked_visual (rw (shell_cursor (pos 1) []) refl) (rw (shell_cursor (pos 1) []) refl)
      (omega arith)

forward_loop_lem_example :
    forward_loop 1 (cursor_at 2 minus_one abcd)
    ≡ (if ltb (2 + 1) 4 then some (cursor_at (2 + 1) minus_one abcd) else none)
forward_loop_lem_example =
    forward_loop_lem 1 2 minus_one abcd unmarked (omega arith) ((λ e. absurd (omega arith)), tt)

last_of_history : last_words shell ≡ some ((b'l' ∷ b's' ∷ []) ∷ (b'x' ∷ []) ∷ [])
unfolding last_words get_last with_current get_line ◌-ℤ◌ split split_loop start split_word step
    words_of
last_of_history = refl

typed-Digits : Digits (b'0' ∷ b'1' ∷ [])
typed-Digits = ((omega arith, omega arith), ((omega arith, omega arith), tt))

yank_nth_arg-typed_example :
    (yank_nth_arg ascii
        (record shell { iterations = typed (reset shell.iterations) (b'0' ∷ b'1' ∷ []) })
      ≢ none)
    × (yank_nth_arg ascii (record shell {
      iterations = add (typed (reset shell.iterations) (b'0' ∷ b'1' ∷ [])) (b'-' ∷ []);
    })
        ≡ none)
yank_nth_arg-typed_example =
    yank_nth_arg-typed ascii shell shell.iterations (b'l' ∷ b's' ∷ []) ((b'x' ∷ []) ∷ []) b'0'
      (b'1' ∷ []) last_of_history typed-Digits (omega arith)

opening : surround_type b'(' ≡ (true, false)
unfolding surround_type
opening = refl

autopair_delete-autopair_insert_example :
    (c : Cursor) × (d : Cursor) × (autopair_insert_or_jump b'('
        (cursor_at 2 minus_one ((b'a' ∷ b'b' ∷ []) ++ b'c' ∷ b'd' ∷ []))
      ≡ (c, false))
    × ((insert_at c (b'(' ∷ [])).line
        ≡ (b'a' ∷ b'b' ∷ []) ++ b'(' ∷ ((match_surround b'(').1 ∷ (b'c' ∷ b'd' ∷ [])))
    × (autopair_delete (insert_at c (b'(' ∷ [])) ≡ some d)
    × (cut_rune (dec d).line (dec d).pos ≡ some ((b'a' ∷ b'b' ∷ []) ++ b'c' ∷ b'd' ∷ []))
autopair_delete-autopair_insert_example =
    autopair_delete-autopair_insert (b'a' ∷ b'b' ∷ []) (b'c' ∷ b'd' ∷ []) minus_one b'(' unmarked
      opening
