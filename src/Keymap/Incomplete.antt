-- ===== src/Keymap/Incomplete.antt =====
-- Keys that are a part of a sequence only (internal/keymap/dispatch.go).
use readline.Base.{
  ℕ, zero, suc, ◌≡◌, refl, sym, ap, ◌∙◌, Bool, true, false, ◌&&◌, not, ◌||◌, Option, some, List, [],
  ◌∷◌, ◌++◌, is_empty, append_assoc, Bool-cases, Option-cases, inl, inr, arith, length, ltb,
}
use readline.Core.Keys.{Keys, peek_key, pop_key, peek_char}
use readline.Core.Keys.Queue.{waiting, pop-first, waiting-matched_prefix, first, rest_of}
use readline.Inputrc.Config.{Bind, Map}
use readline.Inputrc.Reader.{Text}
use readline.Keymap.{Engine, get_context_binds}
use readline.Keymap.Matching.{match_bind}
use readline.Keymap.Dispatch.{
  Dispatched, Answer, dispatch_loop, dispatch_keys, make_match, popped, keep_main, keep_local,
  insert_in_search, handle_escape, match_main, match_local, is_unset, is_escape_key, no_answer,
  is_nil,
}
use readline.Keymap.Exact.{kept-keys}
use readline.Shell.{is_emacs}

cons-waiting : (xs : List ℕ) (k : ℕ) → some k ≡ first xs → k ∷ rest_of xs ≡ xs
cons-waiting [] k e = cc
cons-waiting (x ∷ xs) k e = cc

-- A key that is popped is the first of those that wait.
popped-waiting :
    (keys : Keys) (k : ℕ) → peek_key keys ≡ some k → k ∷ waiting (pop_key keys).0 ≡ waiting keys
popped-waiting keys k e =
    ap (k ∷◌) (pop-first keys).4 ∙ cons-waiting (waiting keys) k (sym e ∙ (pop-first keys).0)

module _ (encode : ℕ → List ℕ) {E : Type 0} (binds : Map Bind) where
  -- No key is lost by the loop: those that it read, and then those that still wait.
  dispatch_loop-waiting :
      (n : ℕ) (m : Engine E) (prefix : Bool) (read matched : List ℕ)
      → (dispatch_loop encode n binds m prefix read matched).read
          ++ waiting (dispatch_loop encode n binds m prefix read matched).engine.keys
        ≡ read ++ waiting m.keys
  unfolding dispatch_loop make_match popped
  dispatch_loop-waiting zero m prefix read matched = refl
  dispatch_loop-waiting (suc n) m prefix read matched = elim (Option-cases (peek_key m.keys)) [
    | inl e ↦ rw (dispatch_loop, e) refl
    | inr (k, e) ↦
        let keys = read ++ k ∷ [] in
        let (match, prefixed) = match_bind encode keys binds in
        let read_on : keys ++ waiting (pop_key m.keys).0 ≡ read ++ waiting m.keys =
          append_assoc read (k ∷ []) _ ∙ ap (read ++◌) (popped-waiting m.keys k e) in
        elim (Bool-cases (is_empty prefixed)) [
          | inl alone ↦ elim (Bool-cases (is_empty match.action)) [
            | inl lost ↦ rw (dispatch_loop, e, alone, lost) read_on
            | inr found ↦ rw (dispatch_loop, e, alone, found) read_on
          ]
          | inr part ↦
              rw (dispatch_loop, e, part)
                (dispatch_loop-waiting n _ true keys (matched ++ k ∷ [])
                  ∙ ap (λ x. keys ++ waiting x) (kept-keys (is_empty match.action) (popped m) match)
                  ∙ read_on)
        ]
  ]

false-true : {A : Type 0} → false ≡ true → A
false-true e = absurd (grind arith)

module _ (to_runes : List ℕ → List ℕ) (first_cluster : List ℕ → List ℕ × List ℕ)
    (encode : ℕ → List ℕ) {E : Type 0} where
  dispatch_keys-waiting :
      (m : Engine E) (binds : Map Bind)
      → (dispatch_keys first_cluster encode m binds).by_prefix ≡ true
      → (dispatch_keys first_cluster encode m binds).read
          ++ waiting (dispatch_keys first_cluster encode m binds).engine.keys
        ≡ waiting m.keys
  unfolding dispatch_keys make_match
  dispatch_keys-waiting m binds = elim (Option-cases (peek_char first_cluster encode m.keys)) [
    | inl e ↦ rw (dispatch_keys, e) (λ h. refl)
    | inr (c, e) ↦ elim (Bool-cases (ltb 1 (length c))) [
      | inl wide ↦ rw (dispatch_keys, e, wide) (λ h. false-true h)
      | inr single ↦
          rw (dispatch_keys, e, single) (λ h. dispatch_loop-waiting encode binds _ m false [] [])
    ]
  ]

  module _ {C : Type 0} (commands : Text → Option C) where
    keep_main-waiting :
        (d : Dispatched E)
        → d.by_prefix ≡ true
        → waiting (keep_main commands to_runes d).engine.keys ≡ d.read ++ waiting d.engine.keys
    unfolding keep_main
    keep_main-waiting d h = rw h (waiting-matched_prefix to_runes d.engine.keys d.read)

    keep_local-waiting :
        (d : Dispatched E)
        → d.by_prefix ≡ true
        → waiting (keep_local commands to_runes d).engine.keys ≡ d.read ++ waiting d.engine.keys
    unfolding keep_local
    keep_local-waiting d h = rw h (waiting-matched_prefix to_runes d.engine.keys d.read)

    insert_in_search_id :
        (a : Answer E C)
        → (insert_in_search commands a).by_prefix ≡ true
        → insert_in_search commands a ≡ a
    unfolding insert_in_search
    insert_in_search_id a =
        elim (Bool-cases (a.engine.non_inc_search && (is_nil a.command || a.by_prefix))) [
          | inl inserts ↦ rw (insert_in_search, inserts) (λ h. false-true h)
          | inr stays ↦ rw (insert_in_search, stays) (λ h. refl)
        ]

    searched-waiting :
        (m : Engine E) (binds : Map Bind)
        → (insert_in_search commands
            (keep_main commands to_runes (dispatch_keys first_cluster encode m binds))).by_prefix
          ≡ true
        → waiting
            (insert_in_search commands (
              keep_main commands to_runes (dispatch_keys first_cluster encode m binds))).engine.keys
          ≡ waiting m.keys
    unfolding keep_main
    searched-waiting m binds h =
        let d = dispatch_keys first_cluster encode m binds in
        let same = insert_in_search_id (keep_main commands to_runes d) h in
        let part : d.by_prefix ≡ true = sym (ap (λ (a : Answer E C). a.by_prefix) same) ∙ h in
        ap (λ (a : Answer E C). waiting a.engine.keys) same
        ∙ keep_main-waiting d part
        ∙ dispatch_keys-waiting m binds part

    -- Keys that match the main keymap only as a part of a sequence all wait again, in their order, so
    -- that the next key continues the sequence.
    pub match_main-waiting :
        (m : Engine E)
        → (match_main commands to_runes first_cluster encode m).by_prefix ≡ true
        → waiting (match_main commands to_runes first_cluster encode m).engine.keys ≡ waiting m.keys
    unfolding match_main no_answer handle_escape
    match_main-waiting m =
        let binds = get_context_binds m true in
        let d = dispatch_keys first_cluster encode m binds in
        let a = insert_in_search commands (keep_main commands to_runes d) in
        elim (Bool-cases (is_unset m.main || is_empty binds)) [
          | inl nothing ↦ rw (match_main, nothing) (λ h. false-true h)
          | inr bound ↦
              elim (Bool-cases
                (is_escape_key a.engine.keys && (not (is_emacs a.engine.main) && a.by_prefix))) [
                  | inl escapes ↦ rw (match_main, bound, escapes) (λ h. false-true h)
                  | inr stays ↦ rw (match_main, bound, stays) (λ h. searched-waiting m binds h)
                ]
        ]

    -- The same for the local keymap.
    match_local-waiting :
        (m : Engine E)
        → (match_local commands to_runes first_cluster encode m).by_prefix ≡ true
        → waiting (match_local commands to_runes first_cluster encode m).engine.keys
          ≡ waiting m.keys
    unfolding match_local no_answer keep_local handle_escape
    match_local-waiting m =
        let binds = get_context_binds m false in
        let d = dispatch_keys first_cluster encode m binds in
        let a = keep_local commands to_runes d in
        elim (Bool-cases (is_unset m.local || is_empty binds)) [
          | inl nothing ↦ rw (match_local, nothing) (λ h. false-true h)
          | inr bound ↦
              elim (Bool-cases (is_escape_key a.engine.keys && (a.by_prefix || is_nil a.command))) [
                | inl escapes ↦ rw (match_local, bound, escapes) (λ h. false-true h)
                | inr stays ↦
                    rw (match_local, bound, stays)
                      (λ h. keep_local-waiting d h ∙ dispatch_keys-waiting m binds h)
              ]
        ]
