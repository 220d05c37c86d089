-- ===== src/Macro/Replay.antt =====
-- What is recorded is replayed (internal/macro/engine.go).
use readline.Base.{ℕ, ◌≤◌, ◌<◌, ◌≡◌, refl, Bool, true, false, List, ◌∷◌, ◌++◌}
use readline.Core.Keys.{feed}
use readline.Inputrc.Unescape.Runes.{AllPlain}
use readline.Inputrc.Unescape.RoundTrip.{unescape-escape}
use readline.Macro.{Engine, macro_of, run_last_macro, stop_record}

module _ (to_upper : ℕ → ℕ) (is_print : ℕ → Bool) (hex : ℕ → List ℕ)
    (upper : (c : ℕ) → 64 ≤ c → c < 96 → to_upper c ≡ c)
    (prints : (c : ℕ) → 32 ≤ c → c < 127 → is_print c ≡ true) where
  -- If the keys that were recorded, with those that `StopRecord` is given, come back from their escapes,
  -- then the last macro feeds just these keys at the end of the stack, whatever its letter is.
  pub run_last_macro-stop_record :
      (e : Engine) (c : ℕ) (s more : List ℕ)
      → e.current ≡ c ∷ s
      → AllPlain is_print (c ∷ (s ++ more))
      → (run_last_macro to_upper (stop_record to_upper is_print hex e more)).keys
        ≡ feed e.keys false (c ∷ (s ++ more))
  unfolding run_last_macro stop_record macro_of
  run_last_macro-stop_record e c s more k plain =
      let back = (unescape-escape to_upper is_print hex upper prints (c ∷ (s ++ more)) plain).1 in
      rw (k, back) refl
