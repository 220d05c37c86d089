-- ===== src/Core/Keys/Queue.antt =====
-- The stack of keys as one queue of bytes (internal/core/keys.go).
use readline.Base.{
  ℕ, zero, suc, ◌≡◌, refl, true, false, Bool, Option, none, some, List, [], ◌∷◌, ◌++◌, map, ap, sym,
  ◌∙◌, append_assoc, append-nil,
}
use mathlib.Core.List.{map-append}
use readline.Core.Keys.{
  Keys, to_byte, peek_key, pop_key, pop_force, pop, feed, matched_keys, matched_prefix,
  get_macro_keys,
}

-- The keys that wait, in the order in which they are popped.
abbrev pub waiting : Keys → List ℕ
waiting k = k.buf ++ map to_byte k.macro_keys

abbrev pub first : List ℕ → Option ℕ
first [] = none
first (x ∷ xs) = some x

abbrev pub rest_of : List ℕ → List ℕ
rest_of [] = []
rest_of (x ∷ xs) = xs

abbrev PopsFirst : Keys → Type 0
PopsFirst k =
    (peek_key k ≡ first (waiting k))
    × ((pop_key k).1 ≡ first (waiting k))
    × ((pop_force k).1 ≡ first (waiting k))
    × ((pop k).1 ≡ first (waiting k))
    × (waiting (pop_key k).0 ≡ rest_of (waiting k))
    × (waiting (pop_force k).0 ≡ rest_of (waiting k))
    × (waiting (pop k).0 ≡ rest_of (waiting k))

abbrev keys_of : List ℕ → List ℕ → List ℕ → Bool → Keys
keys_of b m t w = record { buf = b; macro_keys = m; matched = t; must_wait = w }

PopsFirst-keys_of : (b m t : List ℕ) (w : Bool) → PopsFirst (keys_of b m t w)
unfolding peek_key pop_key pop_force pop
PopsFirst-keys_of (x ∷ b) m t w = (refl, refl, refl, refl, refl, refl, refl)
PopsFirst-keys_of [] (r ∷ m) t w = (refl, refl, refl, refl, refl, refl, refl)
PopsFirst-keys_of [] [] t w = (refl, refl, refl, refl, refl, refl, refl)

-- Every way to pop takes the first of the waiting keys, which is the one that a peek shows, and
-- leaves the others in their order.
pub pop-first :
    (k : Keys)
    → (peek_key k ≡ first (waiting k))
      × ((pop_key k).1 ≡ first (waiting k))
      × ((pop_force k).1 ≡ first (waiting k))
      × ((pop k).1 ≡ first (waiting k))
      × (waiting (pop_key k).0 ≡ rest_of (waiting k))
      × (waiting (pop_force k).0 ≡ rest_of (waiting k))
      × (waiting (pop k).0 ≡ rest_of (waiting k))
pop-first k = PopsFirst-keys_of k.buf k.macro_keys k.matched k.must_wait

pub waiting-matched_prefix :
    (to_runes : List ℕ → List ℕ) (k : Keys) (prefix : List ℕ)
    → waiting (matched_prefix to_runes k prefix) ≡ prefix ++ waiting k
unfolding matched_prefix
waiting-matched_prefix to_runes k [] = refl
waiting-matched_prefix to_runes k (p ∷ prefix) = ap (p ∷◌) (append_assoc prefix k.buf _)

abbrev with_key : Option ℕ → Keys → Keys × List ℕ → Keys × List ℕ
with_key none k later = (k, [])
with_key (some key) k (k', keys) = (k', key ∷ keys)

-- One pop after another, as the dispatcher reads the keys of a sequence.
abbrev pub pop_keys : ℕ → Keys → Keys × List ℕ
pop_keys zero k = (k, [])
pop_keys (suc n) k = with_key (pop_key k).1 k (pop_keys n (pop_key k).0)

cons-first : (xs ys : List ℕ) (x : ℕ) → some x ≡ first xs → ys ≡ rest_of xs → x ∷ ys ≡ xs
cons-first [] ys x e h = cc
cons-first (y ∷ xs) ys x e h = cc

with_key-waiting :
    (k : Keys) (o : Option ℕ) (later : Keys × List ℕ)
    → o ≡ first (waiting k)
    → later.1 ++ waiting later.0 ≡ rest_of (waiting k)
    → (with_key o k later).1 ++ waiting (with_key o k later).0 ≡ waiting k
with_key-waiting k none later e again = refl
with_key-waiting k (some x) later e again = cons-first (waiting k) _ x e again

pop_keys-waiting : (n : ℕ) (k : Keys) → (pop_keys n k).1 ++ waiting (pop_keys n k).0 ≡ waiting k
pop_keys-waiting zero k = refl
pop_keys-waiting (suc n) k =
    with_key-waiting k (pop_key k).1 (pop_keys n (pop_key k).0) (pop-first k).1
      (pop_keys-waiting n (pop_key k).0 ∙ (pop-first k).4)

-- Keys that are popped, and are then given back as the prefix of a longer sequence, wait again in
-- their old order: nothing is lost, and nothing read twice.
matched_prefix-pop_keys :
    (to_runes : List ℕ → List ℕ) (n : ℕ) (k : Keys)
    → waiting (matched_prefix to_runes (pop_keys n k).0 (pop_keys n k).1) ≡ waiting k
matched_prefix-pop_keys to_runes n k =
    waiting-matched_prefix to_runes (pop_keys n k).0 (pop_keys n k).1 ∙ pop_keys-waiting n k

-- The keys of a macro that are fed at the end wait behind all others; those that are fed at the
-- beginning come first, but for the bytes already read from the terminal.
waiting-feed :
    (k : Keys) (keys : List ℕ)
    → (waiting (feed k false keys) ≡ waiting k ++ map to_byte keys)
      × (waiting (feed k true keys) ≡ k.buf ++ (map to_byte keys ++ map to_byte k.macro_keys))
unfolding feed
waiting-feed k [] = (sym (append-nil (waiting k)), refl)
waiting-feed k (r ∷ keys) = (
  rw (map-append) (sym (append_assoc k.buf _ _)),
  ap (k.buf ++◌) (map-append to_byte (r ∷ keys) k.macro_keys),
)

-- A macro records the keys of a command once: nothing while the keys are only the prefix of a
-- sequence and no other key waits, and the matched keys when the sequence is complete.
get_macro_keys-matched :
    (to_runes : List ℕ → List ℕ) (k : Keys) (p : ℕ) (prefix args : List ℕ)
    → k.buf ≡ []
    → (get_macro_keys (matched_prefix to_runes k (p ∷ prefix)) ≡ [])
      × (get_macro_keys (matched_keys to_runes k (p ∷ prefix) args) ≡ to_runes (p ∷ prefix))
unfolding get_macro_keys matched_prefix matched_keys
get_macro_keys-matched to_runes k p prefix args e = (rw e refl, refl)
