-- ===== src/Core/Selection.antt =====
-- The selection (internal/core/selection.go) with the cursor that it points to, and so with the line. The
-- colors, and the counters of the keyword matchers, are left out, and of a surround selection all but
-- its kind and its position. A slice out of range panics, which is `none`.
pub mod Range
pub mod Cuts
pub mod Operations
use readline.Base.{
  ℕ, zero, suc, ◌+◌, ◌-◌, Bool, true, false, not, ◌&&◌, ◌||◌, Option, none, some, List, [], ◌∷◌,
  ◌++◌, ◌==◌, ltb, if◌then◌else◌, length, take, drop, get_or, is_empty, set, ◌>>=◌,
}
use readline.Base.Int.{ℤ, pos, pos_part, minus_one, ltb_ℤ, eqb_ℤ, ◌+ℤ◌, ◌-ℤ◌}
use readline.Core.Line.{Line, len, insert, insert_between, cut, cut_rune}
use readline.Core.Cursor.{Cursor, get_pos}

pub data Kind : Type 0 where
  unset : Kind
  visual_kind : Kind
  surround_kind : Kind
  matcher_kind : Kind

pub record Area : Type 0 where
  pub kind : Kind
  pub at : ℤ

pub record Selection : Type 0 where
  pub kind : Kind
  pub active : Bool
  pub visual : Bool
  pub visual_line : Bool
  pub bpos : ℤ
  pub epos : ℤ
  pub surrounds : List Area
  pub cursor : Cursor

unfoldable pub new_selection : Cursor → Selection
new_selection c = record {
  kind = unset;
  active = false;
  visual = false;
  visual_line = false;
  bpos = minus_one;
  epos = minus_one;
  surrounds = [];
  cursor = c;
}

unfoldable pub line_of : Selection → Line
line_of s = s.cursor.line

-- A write through the pointer to the line.
unfoldable pub with_line : Selection → Line → Selection
with_line s l = record s { cursor = record s.cursor { line = l } }

-- The last steps of `checkRange`: negative positions are pending, and the two are put in order.
unfoldable pub ordered : ℤ → ℤ → ℤ × ℤ
ordered b e =
    let b' = if ltb_ℤ b (pos 0) then e else b in
    let e' = if ltb_ℤ b (pos 0) || ltb_ℤ e (pos 0) then minus_one else e in
    if ltb_ℤ e' b' && not (eqb_ℤ e' minus_one) then (e', b') else (b', e')

unfoldable pub check_selection_range : Line → ℤ → ℤ → ℤ × ℤ × Bool
check_selection_range l b e =
    if is_empty l || ((ltb_ℤ b (pos 0) && ltb_ℤ e (pos 0)) || (ltb_ℤ (len l) b && ltb_ℤ (len l) e))
    then (minus_one, minus_one, false)
    else let (b', e') =
        ordered (if ltb_ℤ (len l) b then len l else b) (if ltb_ℤ (len l) e then len l else e) in
      (b', e', true)

unfoldable pub mark_range : Selection → ℤ → ℤ → Selection
mark_range s b e =
    let (b', e', valid) = check_selection_range (line_of s) b e in
    if not valid then s else record s { kind = visual_kind; active = true; bpos = b'; epos = e' }

unfoldable pub mark : Selection → ℤ → Selection
mark s at = if ltb_ℤ at (pos 0) || ltb_ℤ (len (line_of s)) at then s else mark_range s at minus_one

unfoldable pub mark_surround : Selection → ℤ → ℤ → Selection
mark_surround s b e =
    if ltb_ℤ b (pos 0) || ltb_ℤ (len (line_of s) -ℤ pos 1) e then s else record s {
      active = true;
      surrounds =
          s.surrounds
          ++ record { kind = surround_kind; at = b } ∷ record { kind = surround_kind; at = e } ∷ [];
    }

-- `Visual`
unfoldable pub set_visual : Selection → Bool → Selection
set_visual s whole = record s { visual = true; visual_line = whole }

-- The start of the line of the buffer, and its end; the rounds of the second loop are the runes left.
unfoldable pub line_start : Line → ℕ → ℕ
line_start l zero = zero
line_start l (suc b) = if get_or l b 0 == b'\n' then suc b else line_start l b

unfoldable pub line_end : Line → ℕ → ℕ → ℕ
line_end l e zero = e
line_end l e (suc rounds) = if get_or l e 0 == b'\n' then e else line_end l (suc e) rounds

-- The two positions of a pending selection that begins at a position, for a cursor at another one.
unfoldable pub spanned : Line → Bool → ℕ → ℕ → ℕ × ℕ
spanned l whole b at =
    let low = if ltb_ℤ (pos at) (pos b) then at else b in
    let high = if ltb_ℤ (pos at) (pos b) then b else at in
    let low' = if whole then line_start l low else low in
    let high' = if whole then line_end l high (length l - high) else high in
    if ltb high' low' then (high', low') else (low', high')

unfoldable pub select_to_cursor : Selection → ℤ → Selection × ℤ × ℤ
select_to_cursor s b =
    let (c, at) = get_pos s.cursor in
    let (low, high) = spanned c.line s.visual_line (pos_part b) (pos_part at) in
    (record s { cursor = c }, pos low, pos high)

-- The selected range, once the pending positions are known.
unfoldable pub final_range : Selection → ℤ → ℤ → ℤ × ℤ
final_range s b e =
    let (b', e', valid) =
      check_selection_range (line_of s) b (if s.visual then e +ℤ pos 1 else e) in
    if valid then (b', e') else (minus_one, minus_one)

unfoldable pub with_final : Selection × ℤ × ℤ → Selection × ℤ × ℤ
with_final (s, b, e) = (s, (final_range s b e).0, (final_range s b e).1)

-- The rest of `Pos`, for the answer of `checkRange`.
unfoldable pub range_of : Selection → ℤ × ℤ × Bool → Selection × ℤ × ℤ
range_of s (b, e, false) = (s, b, e)
range_of s (b, e, true) =
    let s' = record s { bpos = b; epos = e } in
    with_final (if eqb_ℤ e minus_one then select_to_cursor s' b else (s', b, e))

-- `Pos`
unfoldable pub range : Selection → Selection × ℤ × ℤ
range s =
    if is_empty (line_of s) || not s.active
    then (s, minus_one, minus_one)
    else range_of s (check_selection_range (line_of s) s.bpos s.epos)

-- A slice of the line, with Go ints.
unfoldable pub slice_of : Line → ℤ → ℤ → Option Line
slice_of l b e =
    if ltb_ℤ b (pos 0) || (ltb_ℤ e b || ltb_ℤ (len l) e)
    then none
    else some (take (pos_part e - pos_part b) (drop (pos_part b) l))

-- `Text`
unfoldable pub selected : Selection → Option (Selection × Line)
selected s =
    if is_empty (line_of s)
    then some (s, [])
    else let (s', b, e) = range s in
      if eqb_ℤ b minus_one || eqb_ℤ e minus_one
      then some (s', [])
      else do text ← slice_of (line_of s') b e; some (s', text)

unfoldable pub is_matcher : Kind → Bool
is_matcher matcher_kind = true
is_matcher unset = false
is_matcher visual_kind = false
is_matcher surround_kind = false

unfoldable pub kept_areas : Bool → List Area → List Area
kept_areas matchers [] = []
kept_areas true (a ∷ rest) =
    if is_matcher a.kind then a ∷ kept_areas true rest else kept_areas true rest
kept_areas false (a ∷ rest) =
    if is_matcher a.kind then kept_areas false rest else a ∷ kept_areas false rest

unfoldable pub reset : Selection → Selection
reset s = record (new_selection s.cursor) { surrounds = kept_areas true s.surrounds }

unfoldable pub reset_matchers : Selection → Selection
reset_matchers s = record s { surrounds = kept_areas false s.surrounds }

-- The loop of `Cut` over the surround selections.
unfoldable pub cut_areas : Line → List Area → ℕ → Option Line
cut_areas l [] offset = some l
cut_areas l (a ∷ rest) offset = do
  l' ← cut_rune l (a.at -ℤ pos offset)
  cut_areas l' rest (suc offset)

unfoldable pub cut_selected : Selection → Option (Selection × Line)
cut_selected s =
    let (s', b, e) = range s in
    if eqb_ℤ b minus_one || eqb_ℤ e minus_one then some (reset s', []) else do
      (s'', text) ← selected s'
      l ← cut (line_of s'') b e
      some (reset (with_line s'' l), text)

-- `Cut`
unfoldable pub cut_selection : Selection → Option (Selection × Line)
cut_selection s =
    if is_empty (line_of s)
    then some (s, [])
    else if is_empty s.surrounds
    then cut_selected s
    else do l ← cut_areas (line_of s) s.surrounds 0; some (reset (with_line s l), [])

-- `InsertAt`
unfoldable pub insert_selection : Selection → ℤ → ℤ → Option Selection
insert_selection s b e =
    let (b', e', valid) = check_selection_range (line_of s) b e in
    if not valid then some s else do
      (s', text) ← selected s
      l ←
          if eqb_ℤ e' minus_one || eqb_ℤ b' e'
          then some (insert (line_of s') b' text)
          else insert_between (line_of s') b' e' text
      some (reset (with_line s' l))

-- `Len`
unfoldable pub selection_len : Selection → Option (Selection × ℕ)
selection_len s =
    if is_empty (line_of s) || eqb_ℤ s.bpos s.epos
    then some (s, 0)
    else do let r = range s; text ← slice_of (line_of r.0) r.1 r.2; some (r.0, length text)

-- `Surround`
unfoldable pub surround_with : Selection → ℕ → ℕ → Option Selection
surround_with s bchar echar = if is_empty (line_of s) then some s else do
  (s', n) ← selection_len s
  if n == 0 then some s' else do
    (s'', text) ← selected s'
    let r = range s''
    if eqb_ℤ r.1 minus_one || eqb_ℤ r.2 minus_one then some (reset r.0) else do
      l ← insert_between (line_of r.0) r.1 r.2 (bchar ∷ text ++ echar ∷ [])
      some (reset (with_line r.0 l))
