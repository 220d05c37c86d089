-- ===== src/Keymap/Pending.antt =====
-- The commands that wait for a movement (internal/keymap/pending.go). A command is a function of the
-- engine, which stands for what it does to it; to run one that is not there is a panic.
use readline.Base.{
  Bool, true, false, ◌&&◌, Option, some, List, [], ◌∷◌, ◌++◌, length, ◌-◌, take, get_elem?, eqb,
  if◌then◌else◌, is_empty, ◌>>=◌,
}
use readline.Inputrc.Config.{Bind}
use readline.Inputrc.Reader.{Text}
use readline.Keymap.{Engine}
use readline.Keymap.Dispatch.{resolve}
use readline.Shell.{Mode, no_mode, vi_opp}

unfoldable pub is_operator : Mode → Bool
is_operator vi_opp = true
is_operator _ = false

abbrev pub without_last : List Bind → List Bind
without_last pending = take (length pending - 1) pending

module _ {E : Type 0} where
  unfoldable pub pending_next : Engine E → Engine E
  pending_next m = record m { local = vi_opp; skip = true; pending = m.pending ++ m.active ∷ [] }

  -- With no command left that waits, the local keymap is left.
  unfoldable pub leave_operator : Engine E → Engine E
  leave_operator m =
      if is_empty m.pending && is_operator m.local then record m { local = no_mode } else m

  unfoldable pub cancel_pending : Engine E → Engine E
  cancel_pending m =
      if is_empty m.pending
      then m
      else leave_operator (record m { pending = without_last m.pending })

  unfoldable pub is_pending : Engine E → Bool
  is_pending m = elim m.pending [ [] ↦ false | bind ∷ rest ↦ eqb m.active.action bind.action ]

  module _ (commands : Text → Option (Engine E → Option (Engine E))) where
    -- The last command that waits is run, as its own caller if it was typed twice.
    unfoldable pub run_last : Engine E → Bind → Option (Engine E)
    run_last m bind =
        let twice = eqb bind.action m.active.action in
        let called = if twice then record m { is_caller = true } else m in
        let reset : Engine E → Engine E =
          λ e. if twice then record e { is_caller = false } else e in
        if is_empty bind.action then some (reset called) else do
          command ← resolve commands bind
          m' ← command called
          some (reset (leave_operator m'))

    unfoldable pub run_pending : Engine E → Option (Engine E)
    run_pending m =
        if is_empty m.pending
        then some m
        else if m.skip
        then some (record m { skip = false })
        else do
          bind ← get_elem? m.pending (length m.pending - 1)
          run_last (record m { pending = without_last m.pending }) bind
