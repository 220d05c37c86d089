-- ===== src/Tests/Sources.antt =====
-- The theorems about the history sources at concrete inputs, and runs of the model.
use readline.Base.{zero, suc, ◌≡◌, refl, Bool, true, false, Option, none, some, [], ◌∷◌, map, arith}
use readline.Base.Int.{ℤ, pos, minus_one}
use readline.Core.Line.{Line}
use readline.History.Undo.{Source, empty_history}
use readline.History.Names.{SourceList, current, add, delete, find_source, name_at}
use readline.History.Names.Cycling.{delete-current}
use readline.Base.Utf8.{to_bytes, encode_rune, low_bits}
use readline.Core.Cursor.{get_pos}
use readline.Core.Cursor.Command.{cursor_at}
use readline.History.Match.{match, match_loop, is_match, needle, has_prefix}
use readline.History.Match.Newest.{IsLastMatch, NoneMatches, match-IsLastMatch, match-forward}
use readline.History.Sources.{History, walk, infer_next}
use readline.History.Acceptance.{accept, is_repeated}
use readline.History.Sources.Walking.{walk-walk}
use readline.History.Acceptance.Writing.{AllShort, AllNew, append_line, accept-short, accept-new}
use readline.History.Sources.Inferring.{infer_next-last}

abbrev source : Source
source = record { name = 1 ∷ []; entries = (b'a' ∷ []) ∷ (b'b' ∷ []) ∷ (b'a' ∷ b'b' ∷ []) ∷ [] }

abbrev two_sources : SourceList
two_sources = record {
  list = source ∷ record { name = 2 ∷ []; entries = [] } ∷ [];
  names = (1 ∷ []) ∷ (2 ∷ []) ∷ [];
  source_pos = pos 0;
}

abbrev edited : Line
edited = b'a' ∷ []

abbrev history : History
history = record {
  walking = record {
    cursor = record { pos = pos 1; mark = minus_one; line = edited };
    current = none;
    hpos = minus_one;
    skip = false;
    undoing = false;
    lines = λ name key. empty_history;
    spare = λ items. [];
  };
  sources = two_sources;
  max_entries = pos 500;
  cpos = minus_one;
  infer = false;
  accepted = false;
  accept_hold = false;
  accept_line = [];
  accept_err = none;
  preserve_point = false;
  revert_all = false;
}

-- No text matches by an expression, and no text is trimmed.
abbrev no_regexp : Line → Line → Bool
no_regexp text line = false

abbrev no_trim : Line → Line
no_trim line = line

current-source : current two_sources ≡ some (some source)
unfolding current find_source name_at
current-source = refl

abbrev on_second : SourceList
on_second = record two_sources { source_pos = pos 1 }

delete-current_example :
    (h : SourceList) × (add (delete on_second []) source ≡ some h) × (current h ≡ none)
delete-current_example = delete-current on_second 0 source refl

match-IsLastMatch_example :
    (r : Option (Line × ℤ)) × (match no_regexp source.entries minus_one edited none false false
        false
      ≡ some r)
    × IsLastMatch no_regexp source.entries false (needle edited none) 3 r
match-IsLastMatch_example = match-IsLastMatch no_regexp source.entries minus_one edited none false

-- "éé", with the cursor on the second rune: the text is one byte, the half of a rune.
half_needle : needle (233 ∷ 233 ∷ []) (some (cursor_at 1 minus_one (233 ∷ 233 ∷ []))) ≡ 195 ∷ []
unfolding needle to_bytes encode_rune low_bits get_pos
half_needle = refl

no_z : NoneMatches no_regexp source.entries false (b'z' ∷ []) 0 3
unfolding NoneMatches is_match has_prefix to_bytes encode_rune
no_z zero line low high e = ground arith
no_z (suc zero) line low high e = ground arith
no_z (suc (suc zero)) line low high e = ground arith
no_z (suc (suc (suc i))) line low high e = absurd (omega arith)

match-forward_example :
    match_loop no_regexp source.entries (b'z' ∷ []) true false minus_one 9 ≡ none
match-forward_example =
    match-forward no_regexp source.entries false (b'z' ∷ []) 9 (omega arith) no_z

walk-walk_example :
    (h' : History) × (h'' : History) × (walk history (pos 1) ≡ some h')
    × (h'.walking.hpos ≡ pos 1)
    × (walk h' minus_one ≡ some h'')
    × (h''.walking.hpos ≡ minus_one)
    × (h''.walking.cursor.line ≡ edited)
walk-walk_example =
    walk-walk history source 0 current-source (omega arith) refl refl refl (omega arith)

short : AllShort 500 two_sources.list
unfolding AllShort
short = (omega arith, (omega arith, tt))

accept-short_example : (accept no_trim history true false none).sources ≡ two_sources
accept-short_example = accept-short no_trim history 500 true refl short

abbrev unlimited : History
unlimited = record history { max_entries = minus_one }

new_line : AllNew no_trim edited two_sources.list
unfolding AllNew is_repeated
new_line = (refl, (refl, tt))

accept-new_example :
    ((accept no_trim unlimited false false none).sources.list
      ≡ map (append_line edited) two_sources.list)
    × ((accept no_trim unlimited false false (some 1)).sources ≡ two_sources)
accept-new_example = accept-new no_trim unlimited 0 false 1 refl refl new_line

infer_next-last_example : infer_next no_regexp history ≡ none
unfolding is_match has_prefix to_bytes encode_rune
infer_next-last_example =
    infer_next-last no_regexp history source (b'a' ∷ b'b' ∷ []) 0 current-source refl refl refl
