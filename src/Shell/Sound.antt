-- ===== src/Shell/Sound.antt =====
-- What each command keeps of the state of the shell (readline.go, shell.go), for the proofs about them.
use readline.Base.{
  ℕ, ◌≤◌, ◌≡◌, refl, Bool, true, false, Option, none, some, [], ap, ◌∙◌, length, arith, zero, suc,
  Bool-cases, Option-cases, inl, inr, ◌⊎◌, ◌>>=◌,
}
use readline.Base.Int.{pos}
use readline.Core.Cursor.{Cursor, check_append}
use readline.Core.Cursor.Checks.{IsValid, check_append_id, check_append-IsValid}
use readline.Core.Cursor.Command.{check_command_lem}
use readline.History.Undo.{
  LineHistory, Sources, empty_history, get_line_history, put_line_history, save, reset,
}
use readline.History.Undo.Walk.{get_line_history-put_line_history, put_line_history-same}
use readline.History.Undo.Edit.{save_line-EndsWith}
use readline.History.Undo.Saving.{get_line_history-flags, save_of}
use readline.History.Sources.{History}
use readline.Core.Iterations.{Iterations, reset_post_run}
use readline.Shell.{
  Command, Shell, cursor, with_cursor, with_walking, walking, save_history, skip_save, count,
  repeat, times, check_cursor, run, is_vi_command,
}

-- The undo position is one of the states, or it is in front of them.
abbrev pub InRange : LineHistory → Type 0
InRange lh = (p : ℕ) × (lh.pos ≡ pos p) × (p ≤ length lh.items)

InRange-of : (a b : LineHistory) → a ≡ b → InRange b → InRange a
InRange-of a b e r = rw e r

get_line_history-none : (w : Sources) → w.current ≡ none → get_line_history w ≡ empty_history
unfolding get_line_history
get_line_history-none w e = rw e refl

put_line_history-InRange :
    (w : Sources) (lh : LineHistory)
    → InRange lh
    → InRange (get_line_history (put_line_history w lh))
put_line_history-InRange w lh r = elim (Option-cases w.current) [
  | inl e ↦
      InRange-of _ empty_history (get_line_history-none _ ((put_line_history-same w lh).1 ∙ e))
        (0, refl, omega arith)
  | inr (s, e) ↦ InRange-of _ lh (get_line_history-put_line_history w lh s e) r
]

-- What stays between two saves: no undo is under way.
pub record IsKept (w : Sources) : Type 0 where
  pub not_undoing : w.undoing ≡ false
  pub in_range : InRange (get_line_history w)

flags-IsKept :
    (w : Sources) (c : Cursor) (s : Bool) → IsKept w → IsKept (record w { cursor = c; skip = s })
flags-IsKept w c s k = record {
  not_undoing = k.not_undoing;
  in_range = InRange-of _ _ (get_line_history-flags w c s w.undoing) k.in_range;
}

reset-eq :
    (w : Sources)
    → w.undoing ≡ false
    → reset w
      ≡ put_line_history
          (record w { skip = false; undoing = false })
          (record (get_line_history w) { pos = pos 0 })
unfolding reset
reset-eq w e = rw e refl

reset-IsKept : (w : Sources) → w.undoing ≡ false → IsKept (reset w) × ((reset w).cursor ≡ w.cursor)
reset-IsKept w e =
    let now : LineHistory = record (get_line_history w) { pos = pos 0 } in
    let idle : Sources = record w { skip = false; undoing = false } in
    rw (reset-eq w e) (
      record {
        not_undoing = (put_line_history-same idle now).4;
        in_range = put_line_history-InRange idle now (0, refl, omega arith);
      },
      (put_line_history-same idle now).0,
    )

-- `Save` never panics, and moves the cursor only to correct it.
pub save-IsKept :
    (w : Sources)
    → IsKept w
    → (w' : Sources) × (save w ≡ some w')
      × IsKept w'
      × ((w'.cursor ≡ w.cursor) ⊎ (w'.cursor ≡ check_append w.cursor))
unfolding save
save-IsKept w k = elim (Bool-cases w.skip) [
  | inl skips ↦
      let (kept, same) = reset-IsKept w k.not_undoing in (reset w, rw skips refl, kept, inl same)
  | inr saves ↦
      let (lh, e, at, ends) = save_line-EndsWith w k.in_range.0 k.in_range.1 k.in_range.2 in
      let w' = put_line_history (record w { cursor = check_append w.cursor }) lh in
      let same = put_line_history-same (record w { cursor = check_append w.cursor }) lh in
      let (kept, c) = reset-IsKept w' (same.4 ∙ k.not_undoing) in
      (reset w', save_of w lh saves e, kept, inr (c ∙ same.0))
]

-- What the parts of a command keep: the selection has no surround selections, and the undo states are
-- in order.
pub record IsSteady (rl : Shell) : Type 0 where
  pub no_surrounds : rl.selection.surrounds ≡ []
  pub kept : IsKept rl.history.walking

-- Between two commands the cursor is valid, too.
pub record IsSound (rl : Shell) : Type 0 where
  pub steady : IsSteady rl
  pub valid : IsValid (cursor rl)

-- A step that returns, and keeps the state steady.
abbrev pub Steady : Option Shell → Type 0
Steady o = (rl' : Shell) × (o ≡ some rl') × IsSteady rl'

abbrev pub AlwaysSteady : Command → Type 0
AlwaysSteady f = (rl : Shell) → IsSteady rl → Steady (f rl)

pub cursor-IsSteady : (rl : Shell) (c : Cursor) → IsSteady rl → IsSteady (with_cursor rl c)
unfolding with_cursor
cursor-IsSteady rl c s = record { no_surrounds = s.no_surrounds; kept = s.kept }

pub skip_save-IsSteady : (rl : Shell) → IsSteady rl → IsSteady (skip_save rl)
unfolding skip_save
skip_save-IsSteady rl s = record {
  no_surrounds = s.no_surrounds;
  kept = flags-IsKept rl.history.walking rl.history.walking.cursor true s.kept;
}

pub count-IsSteady : (rl : Shell) → IsSteady rl → IsSteady (count rl).0
unfolding count
count-IsSteady rl s = record { no_surrounds = s.no_surrounds; kept = s.kept }

-- A save returns, and of the shell it changes no more than the history and, to correct it, the cursor.
abbrev pub Saved : Shell → Shell → Type 0
Saved rl rl' =
    (w : Sources) × (rl' ≡ with_walking rl w)
    × ((w.cursor ≡ cursor rl) ⊎ (w.cursor ≡ check_append (cursor rl)))

pub save_history-IsSteady :
    (rl : Shell)
    → IsSteady rl
    → (rl' : Shell) × (save_history rl ≡ some rl') × IsSteady rl' × Saved rl rl'
unfolding save_history walking with_walking with_cursor cursor
save_history-IsSteady rl s =
    let w = record rl.history.walking { cursor = rl.selection.cursor } in
    let k = flags-IsKept rl.history.walking rl.selection.cursor rl.history.walking.skip s.kept in
    let (w', e, kept, same) = save-IsKept w k in
    (
      with_walking rl w',
      rw e refl,
      record { no_surrounds = s.no_surrounds; kept = kept },
      (w', refl, same),
    )

pub then-Steady : (o : Option Shell) (f : Command) → Steady o → AlwaysSteady f → Steady (o >>= f)
then-Steady o f (rl, e, s) keeps = rw e (keeps rl s)

pub repeat-Steady : (f : Command) (n : ℕ) → AlwaysSteady f → AlwaysSteady (repeat f n)
unfolding repeat
repeat-Steady f zero keeps rl s = (rl, refl, s)
repeat-Steady f (suc n) keeps rl s =
    then-Steady (f rl) (repeat f n) (keeps rl s) (repeat-Steady f n keeps)

pub times-Steady : (f : Command) → AlwaysSteady f → AlwaysSteady (times f)
unfolding times
times-Steady f keeps rl s = repeat-Steady f _ keeps (count rl).0 (count-IsSteady rl s)

check_cursor-IsSound :
    (rl : Shell) → IsSteady rl → (rl' : Shell) × (check_cursor rl ≡ some rl') × IsSound rl'
unfolding check_cursor with_cursor cursor
check_cursor-IsSound rl s = elim (Bool-cases (is_vi_command rl.main)) [
  | inl m ↦
      let (d, e, same, v, done) = check_command_lem rl.selection.cursor in
      (with_cursor rl d, rw (m, e) refl, record { steady = cursor-IsSteady rl d s; valid = v })
  | inr m ↦ (
    with_cursor rl (check_append rl.selection.cursor),
    rw m refl,
    record {
      steady = cursor-IsSteady rl (check_append rl.selection.cursor) s;
      valid = check_append-IsValid rl.selection.cursor;
    },
  )
]

Saved-IsValid : (rl rl' : Shell) → Saved rl rl' → IsValid (cursor rl) → IsValid (cursor rl')
unfolding with_walking with_cursor cursor
Saved-IsValid rl rl' (w, e, inl same) v = rw (e, same) v
Saved-IsValid rl rl' (w, e, inr same) v = rw (e, same) (check_append-IsValid rl.selection.cursor)

pub save_history-IsSound :
    (rl : Shell) → IsSound rl → (rl' : Shell) × (save_history rl ≡ some rl') × IsSound rl'
save_history-IsSound rl s =
    let (rl', e, steady, saved) = save_history-IsSteady rl s.steady in
    (rl', e, record { steady = steady; valid = Saved-IsValid rl rl' saved s.valid })

pub iterations-IsSound :
    (rl : Shell) (i : Iterations) → IsSound rl → IsSound (record rl { iterations = i })
unfolding cursor
iterations-IsSound rl i s = record {
  steady = record { no_surrounds = s.steady.no_surrounds; kept = s.steady.kept };
  valid = s.valid;
}

-- A run of a command that returns, and keeps the state steady, leaves a sound state.
pub run-IsSound :
    (f : Command) (rl : Shell) → Steady (f rl) → (rl' : Shell) × (run f rl ≡ some rl') × IsSound rl'
unfolding run
run-IsSound f rl (there, e, s) =
    let (checked, e', sound) = check_cursor-IsSound there s in
    let (rl', e'', done) =
      save_history-IsSound (record checked { iterations = reset_post_run checked.iterations })
        (iterations-IsSound checked _ sound) in
    (rl', rw (e, e', e'') refl, done)

with_walking-history :
    (rl : Shell) (w : Sources)
    → w.cursor ≡ cursor rl
    → with_walking rl w ≡ record rl { history = record rl.history { walking = w } }
unfolding with_walking with_cursor cursor
with_walking-history rl w e =
    ap
      (λ (c : Cursor). record rl {
        selection = record rl.selection { cursor = c };
        history = record rl.history { walking = w };
      })
      e

-- In a sound state a save returns, and changes no more than the history.
pub save_history-history :
    (rl : Shell)
    → IsSound rl
    → (h : History) × (save_history rl ≡ some (record rl { history = h }))
      × IsSound (record rl { history = h })
unfolding cursor
save_history-history rl s =
    let (rl', e, steady, (w, at, moved)) = save_history-IsSteady rl s.steady in
    let same : w.cursor ≡ rl.selection.cursor = elim moved [
      | inl k ↦ k
      | inr k ↦ k ∙ check_append_id rl.selection.cursor s.valid
    ] in
    let only = at ∙ with_walking-history rl w same in
    (
      record rl.history { walking = w },
      e ∙ ap some only,
      record { steady = rw only at steady; valid = s.valid },
    )
