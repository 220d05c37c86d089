-- ===== src/Keymap/Dispatch.antt =====
-- The dispatch of keys to binds and commands (internal/keymap/dispatch.go). A command is known by its
-- bind: `commands` gives the function of an action. `to_runes`, `first_cluster` and `encode` are the
-- conversions of internal/core/keys.go.
use readline.Base.{
  ℕ, zero, suc, Bool, true, false, not, ◌==◌, ltb, ◌&&◌, ◌||◌, Option, none, some, List, [], ◌∷◌,
  ◌++◌, length, drop, eqb, if◌then◌else◌, is_empty, ◌+◌,
}
use readline.Base.Text.{codes}
use readline.Core.Keys.{
  Keys, peek_key, pop_key, pop_force, peek_char, pop_char, matched_keys, matched_prefix, caller,
}
use readline.Inputrc.Codes.{escape_code}
use readline.Inputrc.Unescape.{unescape}
use readline.Inputrc.Config.{Bind, Map}
use readline.Inputrc.Reader.{Text}
use readline.Keymap.{Engine, no_bind, get_context_binds}
use readline.Keymap.Matching.{match_bind}
use readline.Shell.{Mode, no_mode, isearch, is_emacs}

unfoldable pub is_escape_key : Keys → Bool
is_escape_key keys = elim (caller keys) [
  | [] ↦ false
  | k ∷ rest ↦ is_empty rest && (k == escape_code)
]

unfoldable pub is_unset : Mode → Bool
is_unset no_mode = true
is_unset _ = false

unfoldable pub is_isearch : Mode → Bool
is_isearch isearch = true
is_isearch _ = false

unfoldable pub is_nil : {C : Type 0} → Option C → Bool
is_nil none = true
is_nil (some c) = false

module _ {C : Type 0} (commands : Text → Option C) where
  unfoldable pub resolve : Bind → Option C
  resolve bind = if bind.macro || is_empty bind.action then none else commands bind.action

  unfoldable pub command_of_bind : Bind → Option C
  command_of_bind bind = if bind.macro then none else commands bind.action

-- The terminators of `InputIsTerminator`.
unfoldable pub terminators : (ℕ → ℕ) → Map Bind
terminators to_upper =
    let abort : Bind = record { action = codes "abort"; macro = false } in
    (unescape to_upper (codes "\\C-G"), abort) ∷ (unescape to_upper (codes "\\C-]"), abort) ∷ []

-- What `dispatchKeys` returns; the bind is the active one of the engine.
pub record Dispatched (E : Type 0) : Type 0 where
  pub engine : Engine E
  pub by_prefix : Bool
  pub read : List ℕ
  pub matched : List ℕ

-- What `MatchLocal` and `MatchMain` return.
pub record Answer (E C : Type 0) : Type 0 where
  pub engine : Engine E
  pub bind : Bind
  pub command : Option C
  pub by_prefix : Bool

module _ {E : Type 0} where
  unfoldable pub make_match : Engine E → Bind → Bind → Engine E × Bool
  make_match m active prefixed =
      (record m { active = active; prefixed = prefixed }, not (is_empty prefixed.action))

  unfoldable pub popped : Engine E → Engine E
  popped m = record m { keys = (pop_key m.keys).0 }

  module _ (encode : ℕ → List ℕ) where
    -- The loop of `dispatchKeys`, which ends if no key is left. A round pops a key.
    unfoldable pub dispatch_loop : ℕ → Map Bind → Engine E → Bool → List ℕ → List ℕ → Dispatched E
    dispatch_loop zero binds m prefix read matched = record {
      engine = m;
      by_prefix = prefix;
      read = read;
      matched = matched;
    }
    dispatch_loop (suc n) binds m prefix read matched = elim (peek_key m.keys) [
      | none ↦ record { engine = m; by_prefix = prefix; read = read; matched = matched }
      | some key ↦
          let keys = read ++ key ∷ [] in
          let (match, prefixed) = match_bind encode keys binds in
          elim (is_empty prefixed) [
            | true ↦ elim (is_empty match.action) [
              | true ↦
                  let (m', by_prefix) = make_match m m.prefixed no_bind in
                  record {
                    engine = popped m';
                    by_prefix = by_prefix;
                    read = keys;
                    matched = matched;
                  }
              | false ↦
                  let (m', by_prefix) = make_match (popped m) match no_bind in
                  record {
                    engine = m';
                    by_prefix = by_prefix;
                    read = keys;
                    matched = matched ++ key ∷ [];
                  }
            ]
            | false ↦
                let next = popped m in
                dispatch_loop n binds
                  (if is_empty match.action then next else record next { prefixed = match }) true
                  keys (matched ++ key ∷ [])
          ]
    ]

  module _ (first_cluster : List ℕ → List ℕ × List ℕ) (encode : ℕ → List ℕ) where
    -- The keys that wait bound the rounds of the loop.
    unfoldable pub dispatch_keys : Engine E → Map Bind → Dispatched E
    dispatch_keys m binds = elim (peek_char first_cluster encode m.keys) [
      | none ↦ record { engine = m; by_prefix = false; read = []; matched = [] }
      | some c ↦
          if ltb 1 (length c)
          then (let (m', by_prefix) =
                make_match m (record { action = codes "self-insert"; macro = false }) no_bind in
              record {
                engine = record m' { keys = (pop_char first_cluster encode m'.keys).0 };
                by_prefix = by_prefix;
                read = c;
                matched = c;
              })
          else dispatch_loop encode (length m.keys.buf + length m.keys.macro_keys) binds m false []
              []
    ]

  unfoldable pub no_answer : {C : Type 0} → Engine E → Answer E C
  no_answer m = record { engine = m; bind = no_bind; command = none; by_prefix = false }

  -- `handleEscape`, of the local keymap and of the main one.
  unfoldable pub escape_bind : Engine E → Bool → Engine E × Bind
  escape_bind m main =
      if eqb m.prefixed.action (codes "vi-movement-mode")
      then (m, m.prefixed)
      else if not main && (is_emacs m.main && is_isearch m.local)
      then (
        record m { keys = (pop_force m.keys).0 },
        record { action = codes "emacs-editing-mode"; macro = false },
      )
      else (m, no_bind)

  module _ {C : Type 0} (commands : Text → Option C) where
    unfoldable pub handle_escape : Engine E → Bool → Answer E C
    handle_escape m main =
        let (e, bind) = escape_bind m main in
        let e' = record e { prefixed = no_bind } in
        record {
          engine = if main then record e' { keys = (pop_force e'.keys).0 } else e';
          bind = bind;
          command = resolve commands bind;
          by_prefix = false;
        }

    -- A search that is not incremental inserts the keys that are no command of it.
    unfoldable pub insert_in_search : Answer E C → Answer E C
    insert_in_search a =
        let bind : Bind = record { action = codes "self-insert"; macro = false } in
        if a.engine.non_inc_search && (is_nil a.command || a.by_prefix)
        then record {
          engine = record a.engine { active = bind };
          bind = bind;
          command = resolve commands bind;
          by_prefix = false;
        }
        else a

    module _ (to_runes : List ℕ → List ℕ) where
      -- The keys of an answer that may be completed are given back.
      unfoldable pub keep_main : Dispatched E → Answer E C
      keep_main d =
          let m = d.engine in
          let keys =
            if d.by_prefix
            then matched_prefix to_runes m.keys d.read
            else matched_keys to_runes m.keys d.read [] in
          record {
            engine = record m { keys = keys };
            bind = m.active;
            command = command_of_bind commands m.active;
            by_prefix = d.by_prefix;
          }

      unfoldable pub keep_local : Dispatched E → Answer E C
      keep_local d =
          let m = d.engine in
          let keys =
            if d.by_prefix
            then matched_prefix to_runes m.keys d.read
            else matched_keys to_runes m.keys d.matched (drop (length d.matched) d.read) in
          record {
            engine = record m { keys = keys };
            bind = m.active;
            command = command_of_bind commands m.active;
            by_prefix = d.by_prefix;
          }

    module _ (to_runes : List ℕ → List ℕ) (first_cluster : List ℕ → List ℕ × List ℕ)
        (encode : ℕ → List ℕ) where
      unfoldable pub match_main : Engine E → Answer E C
      match_main m =
          let binds = get_context_binds m true in
          if is_unset m.main || is_empty binds
          then no_answer m
          else (let a =
                insert_in_search
                  (keep_main to_runes (dispatch_keys first_cluster encode m binds)) in
              if is_escape_key a.engine.keys && (not (is_emacs a.engine.main) && a.by_prefix)
              then handle_escape a.engine true
              else a)

      unfoldable pub match_local : Engine E → Answer E C
      match_local m =
          let binds = get_context_binds m false in
          if is_unset m.local || is_empty binds
          then no_answer m
          else (let a = keep_local to_runes (dispatch_keys first_cluster encode m binds) in
              if is_escape_key a.engine.keys && (a.by_prefix || is_nil a.command)
              then handle_escape a.engine false
              else a)

  -- `InputIsTerminator`, with the engine behind it.
  module _ (first_cluster : List ℕ → List ℕ × List ℕ) (encode : ℕ → List ℕ) (to_upper : ℕ → ℕ) where
    unfoldable pub input_is_terminator : Engine E → Engine E × Bool
    input_is_terminator m =
        let after = (dispatch_keys first_cluster encode m (terminators to_upper)).engine in
        (after, eqb after.active.action (codes "abort"))
