-- ===== src/Lib.antt =====
-- A verification of the line-editing core of the readline library (Go).
--
-- The library reads keys, dispatches them to commands, and the commands edit a line buffer through a
-- cursor. After each command the state of the line is saved, so that it can be undone. A numeric
-- argument that was typed before a command says how often it runs.
--
-- Core (internal/core):
--   Core/Line.antt      the edits of type `Line` (line.go): Insert, InsertBetween, Cut, CutRune and
--                       the checks of positions. Core/Line/Bounds.antt and Edits.antt prove.
--   Core/Search.antt    Find, FindSurround, SurroundQuotes, SelectWord, SelectBlankWord, Lines and
--                       newlines (line.go). Core/Search/Find.antt, Words.antt and Hits.antt prove.
--   Core/Tokens.antt    Tokenize, TokenizeSpace, Forward, ForwardEnd and Backward (line.go).
--                       Core/Tokens/Offsets.antt, Found.antt and Back.antt prove.
--   Core/Surround.antt  MatchSurround and IsSurround (internal/strutil/surround.go), for the searches.
--   Core/Cursor.antt    type `Cursor` (cursor.go). The line that it points to is a field, so a method
--                       that writes to the line returns it in the new cursor.
--   Core/Cursor/LineMove.antt  the motions between the lines of the buffer (cursor.go). Its children
--                       Lines, Layout, Below and Above prove.
--   Core/Selection.antt the selection (selection.go): marks, range, text, Cut, InsertAt, Surround.
--                       Core/Selection/Operations.antt has Cursor, Pop and ReplaceWith.
--   Core/Iterations.antt  the numeric argument (iterations.go).
--   Core/Keys.antt      the stack of keys (keys.go), without the blocking reads.
-- Editor (internal/editor):
--   Editor/Buffers.antt the registers (buffers.go). Editor/Buffers/Push.antt and Ring.antt prove.
-- History (internal/history):
--   History/Undo.antt   the undo states of a line (undo.go), with the fields of `Sources` that they
--                       use. Its children prove what save, undo and redo do together.
--   History/Names.antt  the list of the sources: Add, Delete, Cycle, Current (sources.go).
--   History/Match.antt  the search of a source for a line: match (sources.go).
--   History/Sources.antt  Init, Walk, Fetch, GetLast, InferNext, Suggest (sources.go), over sources in
--                       memory (history.go).
--   History/Acceptance.antt  Write, Accept and LineAccepted (sources.go).
-- Strutil (internal/strutil):
--   Strutil/Split.antt  the splitting of a line into words (split.go).
--   Strutil/Quotes.antt SurroundType, IsBracket, AdjustSurroundQuotes and GetQuotedWordStart
--                       (surround.go).
--   Strutil/Key.antt    the printed form of a key, Quote (key.go).
-- Inputrc (inputrc):
--   Inputrc/Codes.antt, Escape.antt and Unescape.antt  the escapes of key sequences (inputrc.go, and
--                       unescapeRunes of parse.go). Inputrc/Unescape/RoundTrip.antt proves.
--   Inputrc/Scan.antt   findNonSpace, findEnd, findStringEnd, grab and decodeKey (parse.go).
--   Inputrc/Reader.antt what one line says: readNext and readSymbols (parse.go).
--   Inputrc/Parser.antt Parse, next, doBind, doSet and do (parse.go), over a handler whose state is not
--                       known. Its children prove; Inputrc/Parser/Related.antt is the induction that
--                       they share.
--   Inputrc/Config.antt the handler that the library uses (config.go).
-- Shell (readline.go, shell.go, emacs.go, vim.go, history.go):
--   Shell.antt          the state that the commands share, and `run` (readline.go).
--   Shell/Moving.antt, Changing.antt, Killing.antt and Marking.antt  the commands of emacs.go.
--   Shell/Recalling.antt  the commands of history.go.
--   Shell/ViMoving.antt and ViChanging.antt  the commands of vim.go.
--   Shell/Pairs.antt    AutopairInsertOrJump and AutopairDelete (internal/completion/syntax.go).
--   Shell/Sound.antt, Steps.antt and Safety.antt are about sessions of commands; Restoring.antt,
--                       Marks.antt, Panics.antt, PairDeletion.antt and Transposing.antt prove.
-- Keymap (internal/keymap):
--   Keymap.antt         the engine (engine.go), the names of the modes (mode.go) and the binds of a context
--                       (completion.go).
--   Keymap/Matching.antt  matchBind (dispatch.go), with ConvertMeta (internal/strutil/key.go).
--   Keymap/Dispatch.antt  dispatchKeys, handleEscape, MatchMain and MatchLocal (dispatch.go).
--   Keymap/Pending.antt the commands that wait for a movement (pending.go). Keymap/Exact.antt and
--                       Incomplete.antt prove.
-- Macro.antt            the macro engine (internal/macro/engine.go), without what it prints.
-- Base holds the helpers, Tests the runs and the examples.
--
-- A function has the name of the Go function in snake case; `Cursor.Set` is `set_pos`, `Cursor.Pos` is
-- `get_pos`, `Keys.Pop` is `pop`, and the commands `setMark`, `beginningOfLine` and `endOfLine` end in
-- `_command`. Runes and bytes are natural numbers, and a string that the code
-- converts to runes and back is the list of its runes. Go ints are integers without a bound: the
-- positions and counts stay within the lengths of slices. The numeric argument is the exception: it is
-- read by Atoi, whose range of 64 bits is written out. A run-time panic (an index or a slice out of
-- range) is `none`.
--
-- Loops that do not follow a list take a number of rounds. The forward search of `Find` has the length
-- of the line, the loop of `SurroundQuotes` one more, the loop of `Split` the length of the input, that
-- of `Pop` of the registers one more than the registers in use, the loop of `Undo` two more than the
-- states that are left, and `ToFirstNonSpace` two more than the line. The scans of a line of an inputrc
-- file have the runes that are left, and the dispatch of keys has the keys that wait. A parse has a
-- depth for the files that it includes. The theorems below say which of them end.
--
-- Not modelled: the terminal, the display, the completion system but for the pairs of brackets, the
-- operators of Vim that wait for a movement, the searches, and the sharing of memory between slices.
-- The commands are those of a shell in which no completion is inserted and no search is active, and a
-- key that a command reads is its argument. The widths of runes and the split into grapheme clusters
-- are those of a third-party package.
pub mod Base
pub mod Core
pub mod Editor
pub mod History
pub mod Inputrc
pub mod Keymap
pub mod Macro
pub mod Shell
pub mod Strutil
pub mod Tests
