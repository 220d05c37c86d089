-- ===== src/History/Names.antt =====
-- The list of history sources (internal/history/sources.go). A source is the in-memory one
-- (internal/history/history.go), as the list of its lines, so that no call of it gives an error; the map of
-- sources is a list of entries with different keys. `none` is a panic.
pub mod Cycling
use readline.Base.{
  ℕ, zero, suc, ◌-◌, Bool, true, false, ◌&&◌, Option, none, some, List, [], ◌∷◌, ◌++◌, ◌==◌, eqb,
  length, get_elem?, if◌then◌else◌,
}
use readline.Base.Int.{ℤ, pos, pos_part, ltb_ℤ, eqb_ℤ, ◌+ℤ◌, ◌-ℤ◌}
use readline.Base.Text.{codes}
use readline.Core.Line.{Line}
use readline.Core.Cursor.{index}
use readline.History.Undo.{Source}

abbrev pub default_source_name : List ℕ
default_source_name = codes "default history"

pub record SourceList : Type 0 where
  pub list : List Source
  pub names : List (List ℕ)
  pub source_pos : ℤ

-- `list[name]`
unfoldable pub find_source : List Source → List ℕ → Option Source
find_source [] name = none
find_source (source ∷ list) name =
    if eqb source.name name then some source else find_source list name

-- `delete(list, name)`
unfoldable pub remove_source : List Source → List ℕ → List Source
remove_source [] name = []
remove_source (source ∷ list) name =
    let rest = remove_source list name in if eqb source.name name then rest else source ∷ rest

-- Without the first occurrence of the name.
unfoldable pub remove_name : List (List ℕ) → List ℕ → List (List ℕ)
remove_name [] name = []
remove_name (name' ∷ names) name = if eqb name' name then names else name' ∷ remove_name names name

unfoldable pub name_at : List (List ℕ) → ℤ → Option (List ℕ)
name_at names at = if ltb_ℤ at (pos 0) then none else get_elem? names (pos_part at)

-- `Current`: there may be no source.
unfoldable pub current : SourceList → Option (Option Source)
unfolding find_source name_at
current h = elim h.list [
  | [] ↦ some none
  | first ∷ rest ↦ elim (name_at h.names h.source_pos) [
    | none ↦ none
    | some name ↦ some (find_source (first ∷ rest) name)
  ]
]

-- The default source is the only one. The name is read only if there is one source.
unfoldable pub has_default : SourceList → Option Bool
has_default h =
    if length h.list == 1
    then elim h.names [ [] ↦ none | name ∷ rest ↦ some (eqb name default_source_name) ]
    else some false

unfoldable pub append_source : SourceList → Source → SourceList
unfolding remove_source
append_source h source = record h {
  names = h.names ++ source.name ∷ [];
  list = source ∷ remove_source h.list source.name;
}

unfoldable pub add : SourceList → Source → Option SourceList
unfolding has_default append_source
add h source = elim (has_default h) [
  | none ↦ none
  | some true ↦ some (
      append_source (record h { list = remove_source h.list default_source_name; names = [] })
        source)
  | some false ↦ some (append_source h source)
]

unfoldable pub delete_each : SourceList → List (List ℕ) → SourceList
unfolding remove_source remove_name
delete_each h [] = h
delete_each h (name ∷ rest) =
    delete_each (record h { list = remove_source h.list name; names = remove_name h.names name })
      rest

-- `Delete`; the position in the history is that of the caller.
unfoldable pub delete : SourceList → List (List ℕ) → SourceList
unfolding delete_each
delete h [] = record h { list = []; names = [] }
delete h (name ∷ rest) = record (delete_each h (name ∷ rest)) { source_pos = pos 0 }

unfoldable pub cycle : SourceList → Bool → SourceList
cycle h true =
    let at = h.source_pos +ℤ pos 1 in
    record h { source_pos = if eqb_ℤ at (pos (length h.names)) then pos 0 else at }
cycle h false =
    let at = h.source_pos -ℤ pos 1 in
    record h { source_pos = if ltb_ℤ at (pos 0) then pos (length h.names) -ℤ pos 1 else at }

unfoldable pub on_last_source : SourceList → Bool
on_last_source h = eqb_ℤ h.source_pos (pos (length h.names) -ℤ pos 1)
