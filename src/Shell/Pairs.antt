-- ===== src/Shell/Pairs.antt =====
-- The pairs of brackets and quotes that are inserted and deleted together (internal/completion/syntax.go),
-- on the cursor with its line.
use readline.Base.{
  ℕ, Bool, true, false, not, ◌&&◌, ◌||◌, Option, some, [], ◌∷◌, ◌==◌, if◌then◌else◌, take, ◌>>=◌,
}
use readline.Base.Int.{pos, pos_part, eqb_ℤ, ◌-ℤ◌}
use readline.Core.Line.{insert, cut_rune}
use readline.Core.Surround.{match_surround, is_surround}
use readline.Core.Cursor.{Cursor, check_append, char, inc, index}
use readline.Strutil.Quotes.{surround_type, get_quoted_word_start}

unfoldable pub is_quote : ℕ → Bool
is_quote key = (key == b'"') || (key == b'\'')

-- `AutopairInsertOrJump`: the cursor, and whether the key is not to be inserted.
unfoldable pub autopair_insert_or_jump : ℕ → Cursor → Cursor × Bool
autopair_insert_or_jump key c =
    let (matcher, closer) = surround_type key in
    let read = if closer then (char c).0 else c in
    let c' = check_append read in
    let unclosed = (get_quoted_word_start (take (pos_part c'.pos) c'.line)).0 in
    let paired = record c' { line = insert c'.line c'.pos ((match_surround key).1 ∷ []) } in
    if not matcher
    then (c, false)
    else if closer && ((char c).1 == key)
    then (inc read, true)
    else if is_quote key
    then (if unclosed then (c', false) else (paired, false))
    else if closer
    then (read, false)
    else (paired, false)

-- `AutopairDelete`
unfoldable pub autopair_delete : Cursor → Option Cursor
autopair_delete c =
    let c' = check_append c in
    if eqb_ℤ c'.pos (pos 0) then some c' else do
      key ← index c'.line (c'.pos -ℤ pos 1)
      let (d, under) = char c'
      if not ((surround_type key).0 && is_surround key under)
          then some d
          else do l ← cut_rune d.line d.pos; some (record d { line = l })
