-- ===== src/Shell/Moving.antt =====
-- The movement commands of emacs.go, and what history.go suggests to them.
use readline.Base.{
  Bool, true, not, ◌&&◌, ◌||◌, Option, some, [], ◌∷◌, leb, if◌then◌else◌, length, ◌>>=◌,
}
use readline.Base.Int.{ℤ, pos, ltb_ℤ, ◌+ℤ◌, ◌-ℤ◌}
use readline.Core.Line.{Line, len, insert}
use readline.Core.Search.{is_space}
use readline.Core.Tokens.{tokenize, forward, forward_end, backward}
use readline.Core.Cursor.{inc, dec, move, set_pos, beginning_of_line, end_of_line_append}
use readline.Core.Cursor.LineMove.{line_move}
use readline.Core.Iterations.{add}
use readline.Core.Selection.{slice_of}
use readline.History.Sources.{suggest}
use readline.Shell.{
  Command, Shell, Unicode, line, cursor, with_cursor, with_buffer, checked, walking, skip_save,
  count, times, is_emacs,
}

-- `rl.line.Set(…)`, then `rl.cursor.Set(len(…))`.
unfoldable pub accept_suggested : Shell → Line → Shell
accept_suggested rl suggested =
    if leb (length suggested) (length (line rl))
    then rl
    else with_cursor rl (set_pos (record (cursor rl) { line = suggested }) (len suggested))

unfoldable pub backward_char : Command
backward_char rl = times (λ rl'. some (with_cursor rl' (dec (cursor rl')))) (skip_save rl)

-- The rest of `forwardChar`, behind the suggestion.
unfoldable pub forward_from : ℤ → Command
forward_from start rl =
    let (rl', at) = checked rl in
    if ltb_ℤ start at
    then some rl'
    else times (λ r. some (with_cursor r (inc (cursor r)))) (skip_save rl')

unfoldable pub beginning_of_line_command : Command
beginning_of_line_command rl =
    let rl' = skip_save rl in
    if not (is_emacs rl'.main) && rl'.iterations.active
    then some (record rl' { iterations = add rl'.iterations (b'0' ∷ []) })
    else do c ← beginning_of_line (cursor rl'); some (with_cursor rl' c)

unfoldable pub end_of_line_command : Command
end_of_line_command rl = do c ← end_of_line_append (cursor rl); some (skip_save (with_cursor rl c))

unfoldable pub up_line : Command
up_line rl = do c ← line_move (cursor rl) (pos 0 -ℤ (count rl).1); some (with_cursor (count rl).0 c)

unfoldable pub down_line : Command
down_line rl = do c ← line_move (cursor rl) (count rl).1; some (with_cursor (count rl).0 c)

module _ (matches : Line → Line → Bool) where
  unfoldable pub suggested_for : Shell → Option Line
  suggested_for rl = suggest matches (record rl.history { walking = walking rl }) (line rl)

  unfoldable pub autosuggest_accept : Command
  autosuggest_accept rl = do suggested ← suggested_for rl; some (accept_suggested rl suggested)

  unfoldable pub forward_char : Command
  forward_char rl = do
    let (rl', start) = checked rl
    rl'' ←
        if rl'.autosuggest && not (ltb_ℤ start (len (line rl') -ℤ pos 1))
        then autosuggest_accept rl'
        else some rl'
    forward_from start rl''

module _ (u : Unicode) where
  unfoldable pub backward_word_once : Command
  backward_word_once rl = do
    let (rl', at) = checked rl
    adjust ← backward u.rune_len (tokenize u.rune_len u.is_punct (line rl') at)
    some (with_cursor rl' (move (cursor rl') adjust))

  unfoldable pub backward_word : Command
  backward_word rl = times backward_word_once (skip_save rl)

  module _ (matches : Line → Line → Bool) where
    -- The part of a suggested line that is inserted, from the motion to the end of it.
    unfoldable pub insert_suggested : Shell → ℤ → Line → ℤ → Option Shell
    insert_suggested rl at suggested adjust = do
      let end =
          if ltb_ℤ (len suggested) ((at +ℤ pos 1) +ℤ adjust)
          then (len suggested -ℤ at) -ℤ pos 1
          else adjust
      chars ← slice_of suggested (at +ℤ pos 1) ((at +ℤ end) +ℤ pos 1)
      some (with_buffer rl (insert (line rl) (at +ℤ pos 1) chars))

    unfoldable pub insert_autosuggest_partial : Bool → Command
    insert_autosuggest_partial in_emacs rl =
        let (rl', at) = checked rl in
        if ltb_ℤ at (len (line rl') -ℤ pos 1) || not rl'.autosuggest then some rl' else do
          suggested ← suggested_for matches rl'
          let split = tokenize u.rune_len u.is_punct suggested at
          if leb (length suggested) (length (line rl')) then some rl' else do
            adjust ←
                if in_emacs
                then forward_end u.rune_len is_space split
                else forward u.rune_len suggested split
            insert_suggested rl' at suggested adjust

    unfoldable pub forward_word_once : Command
    forward_word_once rl = do
      rl' ← insert_autosuggest_partial true rl
      let (rl'', at) = checked rl'
      adjust ← forward_end u.rune_len is_space (tokenize u.rune_len u.is_punct (line rl'') at)
      some (with_cursor rl'' (move (cursor rl'') (adjust +ℤ pos 1)))

    unfoldable pub forward_word : Command
    forward_word rl = times forward_word_once (skip_save rl)
