-- ===== src/Shell/Marking.antt =====
-- The other commands of emacs.go: arguments, keys, macros, undo, marks and comments. A key that
-- `ReadKey` reads is an argument, none if the read is aborted.
use readline.Base.{
  ℕ, zero, suc, Bool, true, false, not, ◌||◌, Option, none, some, List, [], ◌∷◌, ◌==◌, eqb,
  if◌then◌else◌, ◌>>=◌,
}
use readline.Base.Int.{ℤ, pos, pos_part, minus_one, ltb_ℤ, eqb_ℤ, ◌+ℤ◌, ◌-ℤ◌}
use readline.Core.Line.{Line, len, insert, cut}
use readline.Core.Search.{find}
use readline.Core.Cursor.{
  check_append, set_pos, set_mark, reset_mark, move, insert_at, beginning_of_line,
}
use readline.Core.Iterations.{add}
use readline.Core.Keys.{feed}
use readline.Core.Selection.{mark_range, set_visual, slice_of}
use readline.History.Undo.{undo, revert}
use readline.Inputrc.Codes.{escape_code}
use readline.Shell.{
  Command, Shell, line, cursor, with_cursor, checked, with_walking, walking, skip_save, count,
}

-- The Alt modifier is stripped.
unfoldable pub digits_of : List ℕ → List ℕ
digits_of [] = []
digits_of (k ∷ []) = k ∷ []
digits_of (k ∷ (d ∷ keys)) = if k == escape_code then d ∷ keys else k ∷ (d ∷ keys)

unfoldable pub digit_argument : Shell → Shell
digit_argument rl = record (skip_save rl) {
  iterations = add rl.iterations (digits_of rl.keys.matched);
}

unfoldable pub prefix_meta : Option ℕ → Shell → Shell
prefix_meta none rl = skip_save rl
prefix_meta (some key) rl = record (skip_save rl) {
  keys = feed rl.keys false (escape_code ∷ key ∷ []);
}

unfoldable pub undo_last : Command
undo_last rl = do w ← undo (walking rl); some (with_walking rl w)

unfoldable pub revert_line : Shell → Shell
revert_line rl = with_walking rl (revert (walking rl))

-- The mark is set at a position, and the cursor stays.
unfoldable pub mark_at : Shell → ℤ → ℤ → Shell
mark_at rl at back = with_cursor rl (set_pos (set_mark (set_pos (cursor rl) at)) back)

unfoldable pub set_mark_command : Shell → Shell
set_mark_command rl =
    let (rl', at) = checked rl in
    let (rl'', target) = count rl' in
    if rl.iterations.active
    then with_cursor rl (set_mark (cursor rl))
    else if ltb_ℤ (len (line rl'') -ℤ pos 1) target
    then rl''
    else mark_at rl'' target at

-- The point goes to the mark, and the region between them is selected.
unfoldable pub exchange_with : Shell → ℤ → Shell
exchange_with rl mark =
    let c = check_append (set_pos (set_mark (cursor rl)) mark) in
    let s = mark_range (record rl.selection { cursor = c }) c.mark c.pos in
    record rl { selection = set_visual s false }

unfoldable pub exchange_point_and_mark : Shell → Shell
exchange_point_and_mark rl =
    let in_range = not (ltb_ℤ (len (line rl)) (cursor rl).mark) in
    let rl' = if in_range then rl else with_cursor rl (reset_mark (cursor rl)) in
    let mark = (cursor rl').mark in
    if ltb_ℤ mark (pos 0)
    then mark_at (checked rl').0 (pos 0) (checked rl').1
    else exchange_with rl' mark

-- The loop of `viFindChar` (vim.go).
unfoldable pub find_loop : ℕ → Bool → Bool → ℕ → Shell → Shell
find_loop char forward skip zero rl = rl
find_loop char forward skip (suc rounds) rl =
    let (rl', at) = checked rl in
    let found = find (line rl') char at forward in
    let target = if not skip then found else if forward then found -ℤ pos 1 else found +ℤ pos 1 in
    let later =
      find_loop char forward skip rounds (with_cursor rl' (set_pos (cursor rl') target)) in
    if eqb_ℤ found at || eqb_ℤ found minus_one then rl' else later

unfoldable pub vi_find_char : Option ℕ → Bool → Bool → Shell → Shell
vi_find_char none forward skip rl = skip_save rl
vi_find_char (some char) forward skip rl =
    find_loop char forward skip (pos_part (count (skip_save rl)).1) (count (skip_save rl)).0

unfoldable pub character_search : Option ℕ → Shell → Shell
character_search key rl = vi_find_char key (not (ltb_ℤ (count rl).1 (pos 0))) false (count rl).0

unfoldable pub character_search_backward : Option ℕ → Shell → Shell
character_search_backward key rl = vi_find_char key (ltb_ℤ (count rl).1 (pos 0)) false (count rl).0

unfoldable pub add_comment : Line → ℤ → Shell → ℤ → Shell
add_comment comment bytes rl begin =
    with_cursor rl (move (record (cursor rl) { line = insert (line rl) begin comment }) bytes)

unfoldable pub remove_comment : ℤ → Shell → ℤ → Option Shell
remove_comment bytes rl begin = do
  l ← cut (line rl) begin (begin +ℤ bytes)
  some (with_cursor rl (move (record (cursor rl) { line = l }) (pos 0 -ℤ bytes)))

-- `insertComment` with a numeric argument.
unfoldable pub toggle_comment : Line → ℤ → Shell → ℤ → Option Shell
toggle_comment comment bytes rl begin =
    if not (ltb_ℤ (begin +ℤ bytes) (len (line rl)))
    then some (add_comment comment bytes rl begin)
    else do
      head ← slice_of (line rl) begin (begin +ℤ bytes)
      elim (eqb head comment) [
        | true ↦ remove_comment bytes rl begin
        | false ↦ some (add_comment comment bytes rl begin)
      ]

-- `insertComment`, up to the call of `acceptLineWith`; `bytes` is the length of the comment as a string.
unfoldable pub insert_comment : Line → ℤ → Command
insert_comment comment bytes rl = do
  let (rl', at) = checked rl
  c ← beginning_of_line (cursor rl')
  let begin = check_append c
  elim rl'.iterations.active [
    | true ↦ toggle_comment comment bytes (with_cursor rl' (set_pos begin at)) begin.pos
    | false ↦ some (with_cursor rl' (set_pos (insert_at c comment) at))
  ]
