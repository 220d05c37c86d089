-- ===== src/History/Acceptance/Writing.antt =====
-- What is written to the sources (internal/history/sources.go).
use readline.Base.{
  ℕ, ◌≤◌, ◌≡◌, refl, Bool, true, false, none, some, List, [], ◌∷◌, ◌++◌, is_empty, length, map,
  arith,
}
use readline.Base.Int.{pos, negsuc}
use readline.Core.Line.{Line}
use readline.History.Undo.{Source}
use readline.History.Sources.{History}
use readline.History.Acceptance.{is_held, is_repeated, write_each, write, accept}

-- No source has more lines than the number.
unfoldable pub AllShort : ℕ → List Source → Type 0
AllShort max [] = Unit
AllShort max (source ∷ rest) = (length source.entries ≤ max) × AllShort max rest

-- The line repeats the last one of no source.
unfoldable pub AllNew : (Line → Line) → Line → List Source → Type 0
AllNew trim line [] = Unit
AllNew trim line (source ∷ rest) =
    (is_repeated trim line source.entries ≡ false) × AllNew trim line rest

is_held-short :
    (max : ℕ) (entries : List Line) → length entries ≤ max → is_held (pos max) entries ≡ true
unfolding is_held
is_held-short max entries le = ground arith

is_held-negsuc : (k : ℕ) (entries : List Line) → is_held (negsuc k) entries ≡ false
unfolding is_held
is_held-negsuc k entries = ground arith

-- With the line at its end.
unfoldable pub append_line : Line → Source → Source
append_line line source = record source { entries = source.entries ++ line ∷ [] }

module _ (trim : Line → Line) where
  write_each-short :
      (max : ℕ) (line : Line) (list : List Source)
      → AllShort max list
      → write_each trim (pos max) line list ≡ list
  unfolding write_each AllShort
  write_each-short max line [] a = refl
  write_each-short max line (source ∷ rest) a =
      rw (is_held-short max source.entries a.0, write_each-short max line rest a.1) refl

  -- With a maximum of lines that is not negative, an accepted line is written to no source, as long as
  -- each of them has no more lines than that.
  pub accept-short :
      (h : History) (max : ℕ) (hold : Bool)
      → h.max_entries ≡ pos max
      → AllShort max h.sources.list
      → (accept trim h hold false none).sources ≡ h.sources
  unfolding accept write
  accept-short h max hold e a =
      let same = write_each-short max h.walking.cursor.line h.sources.list a in ground arith

  write_each-new :
      (k : ℕ) (line : Line) (list : List Source)
      → AllNew trim line list
      → write_each trim (negsuc k) line list ≡ map (append_line line) list
  unfolding write_each AllNew append_line
  write_each-new k line [] a = refl
  write_each-new k line (source ∷ rest) a =
      let later = write_each-new k line rest a.1 in
      let free = is_held-negsuc k source.entries in let fresh = a.0 in ground arith

  -- Without a maximum, which is a negative one, a line that is accepted without an error, that is not
  -- blank and that repeats no last line, is written at the end of every source; with an error it is
  -- written to none.
  pub accept-new :
      (h : History) (k : ℕ) (hold : Bool) (err : ℕ)
      → h.max_entries ≡ negsuc k
      → is_empty (trim h.walking.cursor.line) ≡ false
      → AllNew trim h.walking.cursor.line h.sources.list
      → ((accept trim h hold false none).sources.list
          ≡ map (append_line h.walking.cursor.line) h.sources.list)
        × ((accept trim h hold false (some err)).sources ≡ h.sources)
  unfolding accept write
  accept-new h k hold err e b a =
      let written = write_each-new k h.walking.cursor.line h.sources.list a in (ground arith, refl)
