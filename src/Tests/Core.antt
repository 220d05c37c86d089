-- ===== src/Tests/Core.antt =====
-- The theorems about internal/core and internal/strutil at concrete inputs, and runs of the models.
use readline.Base.{
  ℕ, ◌≤◌, inl, ◌-◌, ◌≡◌, refl, true, false, [], ◌∷◌, ◌++◌, arith, none, some, take, drop,
  if◌then◌else◌, ◌==◌,
}
use readline.Base.Int.{pos, negsuc, minus_one, ◌+ℤ◌, ◌-ℤ◌}
use readline.Core.Line.{Line, insert, insert_between, cut, end_of}
use readline.Core.Line.Edits.{cut_range}
use readline.Core.Search.{
  find, select_word, surround_quotes, count_quotes, quotes_of, newlines, lines,
}
use readline.Core.Cursor.{Cursor, dec, check_command, on_empty_line, index, char}
use readline.Core.Cursor.Checks.{IsValid}
use readline.Core.Cursor.Command.{cursor_at, InCommand, check_command_lem}
use readline.Core.Cursor.LineMove.{
  land, line_pos, line_move, move_line_down, move_line_up, repeat_move, line_index,
}
use readline.Core.Cursor.LineMove.Below.{buffer_of, move_line_down_lem}
use readline.Core.Cursor.LineMove.Above.{move_line_up_lem}
use readline.Core.Search.Find.{Absent}
use readline.Core.Iterations.{Iterations, add, get, reset, count_of, decimal}
use readline.Core.Iterations.Value.{typed, number, get-typed}
use readline.Core.Keys.{Keys}

-- "ab cd"
abbrev words : Line
words = b'a' ∷ b'b' ∷ b' ' ∷ b'c' ∷ b'd' ∷ []

-- "ab", a newline, an empty line, "c"
abbrev buffer : Line
buffer = b'a' ∷ b'b' ∷ b'\n' ∷ b'\n' ∷ b'c' ∷ []

-- "x 'y' z"
abbrev quoted : Line
quoted = b'x' ∷ b' ' ∷ b'\'' ∷ b'y' ∷ b'\'' ∷ b' ' ∷ b'z' ∷ []

abbrev xy : Line
xy = b'x' ∷ b'y' ∷ []

run_insert : insert words (pos 2) (b'x' ∷ 0 ∷ []) ≡ b'a' ∷ b'b' ∷ b'x' ∷ b' ' ∷ b'c' ∷ b'd' ∷ []
unfolding insert end_of
run_insert = refl

run_cut : cut words (pos 3) (pos 1) ≡ some (b'a' ∷ b'c' ∷ b'd' ∷ [])
unfolding cut
run_cut = refl

run_cut_panics : cut words (pos 9) (pos 3) ≡ none
unfolding cut
run_cut_panics = refl

-- The begin position -1 does not make the text stand at the other position.
run_insert_between :
    insert_between words minus_one (pos 2) xy ≡ some (b'x' ∷ b'y' ∷ b' ' ∷ b'c' ∷ b'd' ∷ [])
unfolding insert_between end_of
run_insert_between = refl

run_find : (find words b'c' (pos 0) true ≡ pos 3) × (find words b'a' (pos 0) true ≡ minus_one)
unfolding find
run_find = (refl, refl)

run_select_word : select_word words (pos 4) ≡ (3, 4)
unfolding select_word
run_select_word = refl

run_surround_quotes : surround_quotes quoted true (pos 3) ≡ some (pos 2, pos 4)
unfolding surround_quotes count_quotes quotes_of find ◌+ℤ◌
run_surround_quotes = refl

run_lines : lines buffer ≡ 2
unfolding lines
run_lines = refl

run_line_move :
    line_move (cursor_at 1 minus_one buffer) (pos 2) ≡ some (cursor_at 4 minus_one buffer)
unfolding line_move repeat_move move_line_down land line_pos line_index newlines check_command
    on_empty_line index char dec ◌-ℤ◌ ◌+ℤ◌
run_line_move = refl

run_line_move_up :
    line_move (cursor_at 4 minus_one buffer) (negsuc 1) ≡ some (cursor_at 0 minus_one buffer)
unfolding line_move repeat_move move_line_up land line_pos line_index newlines check_command
    on_empty_line index char dec ◌-ℤ◌ ◌+ℤ◌
run_line_move_up = refl

run_count : (count_of (b'1' ∷ b'2' ∷ []) ≡ pos 12) × (count_of (b'-' ∷ []) ≡ minus_one)
unfolding count_of decimal
run_count = (refl, refl)

cut_range_example :
    (cut words (pos 1) (pos 3) ≡ some (take 1 words ++ drop 3 words))
    × (cut words (pos 3) (pos 1) ≡ some (take 1 words ++ drop 3 words))
cut_range_example = cut_range words 1 3 (omega arith) (omega arith)

-- A cursor far behind its line.
abbrev astray : Cursor
astray = record { pos = pos 40; mark = negsuc 6; line = buffer }

cursor_at-IsValid : IsValid (cursor_at 1 minus_one words)
cursor_at-IsValid = ground arith

check_command_lem_example :
    (d : Cursor) × (check_command astray ≡ some d) × (d.line ≡ buffer) × IsValid d × InCommand d
check_command_lem_example = check_command_lem astray

-- "ab", "cde" and an empty line: from the last rune of the second one.
two_lines-IsValid :
    (i : ℕ)
    → i ≤ 7
    → IsValid (cursor_at i minus_one (buffer_of [] (97 ∷ 98 ∷ []) (99 ∷ 100 ∷ 101 ∷ []) (10 ∷ [])))
two_lines-IsValid i h = record {
  pos_from = omega arith;
  pos_to = omega arith;
  mark_from = omega arith;
  mark_to = inl refl;
}

ab-Absent : Absent b'\n' (97 ∷ 98 ∷ [])
ab-Absent = (λ e. absurd (omega arith), (λ e. absurd (omega arith), tt))

cde-Absent : Absent b'\n' (99 ∷ 100 ∷ 101 ∷ [])
cde-Absent =
    (λ e. absurd (omega arith), (λ e. absurd (omega arith), (λ e. absurd (omega arith), tt)))

move_line_down_lem_example :
    move_line_down (cursor_at 1 minus_one (97 ∷ 98 ∷ 10 ∷ 99 ∷ 100 ∷ 101 ∷ 10 ∷ []))
    ≡ cursor_at 4 minus_one (97 ∷ 98 ∷ 10 ∷ 99 ∷ 100 ∷ 101 ∷ 10 ∷ [])
move_line_down_lem_example =
    move_line_down_lem [] (97 ∷ 98 ∷ []) (99 ∷ 100 ∷ 101 ∷ []) (10 ∷ []) 1 minus_one tt ab-Absent
      cde-Absent refl (omega arith) (two_lines-IsValid 1 (omega arith))

move_line_up_lem_example :
    move_line_up (cursor_at 5 minus_one (97 ∷ 98 ∷ 10 ∷ 99 ∷ 100 ∷ 101 ∷ 10 ∷ []))
    ≡ some (cursor_at 1 minus_one (97 ∷ 98 ∷ 10 ∷ 99 ∷ 100 ∷ 101 ∷ 10 ∷ []))
unfolding ◌-ℤ◌
move_line_up_lem_example =
    move_line_up_lem [] (97 ∷ 98 ∷ []) (99 ∷ 100 ∷ 101 ∷ []) (10 ∷ []) 2 minus_one tt ab-Absent
      cde-Absent refl (omega arith) (two_lines-IsValid 5 (omega arith))

abbrev no_argument : Iterations
no_argument = record { times = []; active = false; pending = false }

get-typed_example :
    ((get (typed (reset no_argument) (b'1' ∷ b'2' ∷ []))).1
      ≡ (if number 0 (b'1' ∷ b'2' ∷ []) == 0 then pos 1 else pos (number 0 (b'1' ∷ b'2' ∷ []))))
    × ((get (add (typed (reset no_argument) (b'1' ∷ b'2' ∷ [])) (b'-' ∷ []))).1 ≡ (
        if number 0 (b'1' ∷ b'2' ∷ []) == 0
        then minus_one
        else negsuc (number 0 (b'1' ∷ b'2' ∷ []) - 1)))
get-typed_example = get-typed no_argument b'1' (b'2' ∷ []) (ground arith) (omega arith)

-- Two bytes of the terminal, and a rune of a macro.
abbrev stack : Keys
stack = record { buf = b'd' ∷ b'i' ∷ []; matched = []; macro_keys = b'"' ∷ []; must_wait = false }

abbrev no_bytes : Keys
no_bytes = record { buf = []; matched = []; macro_keys = []; must_wait = false }
