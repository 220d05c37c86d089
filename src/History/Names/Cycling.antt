-- ===== src/History/Names/Cycling.antt =====
-- Where the list of sources points to (internal/history/sources.go).
use readline.Base.{ℕ, zero, suc, ◌<◌, ◌≡◌, refl, true, false, none, some, [], ◌∷◌, length, arith}
use readline.Base.Int.{pos, int_laws}
use readline.History.Undo.{Source}
use readline.History.Names.{
  SourceList, cycle, current, add, delete, append_source, has_default, name_at,
}

-- With the position on one of the sources, a cycle to the next one and a cycle back lead to where they
-- began, in either order.
cycle-cycle :
    (h : SourceList) (at : ℕ)
    → h.source_pos ≡ pos at
    → at < length h.names
    → ((cycle (cycle h true) false).source_pos ≡ pos at)
      × ((cycle (cycle h false) true).source_pos ≡ pos at)
unfolding cycle
cycle-cycle h zero e lt = (grind int_laws, grind int_laws)
cycle-cycle h (suc at) e lt = (grind int_laws, grind int_laws)

-- Without an argument `Delete` does not move the position, so that after it the next source that is
-- added cannot be read, if the position was not on the first one: `Current` panics.
pub delete-current :
    (h : SourceList) (at : ℕ) (source : Source)
    → h.source_pos ≡ pos (suc at)
    → (h' : SourceList) × (add (delete h []) source ≡ some h') × (current h' ≡ none)
unfolding add delete append_source has_default current name_at
delete-current h at source e =
    (record h { list = source ∷ []; names = source.name ∷ [] }, refl, rw e (ground arith))
