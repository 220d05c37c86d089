-- ===== src/Keymap/Exact.antt =====
-- The keys of a bound sequence (internal/keymap/dispatch.go), as `dispatchKeys` reads them.
use readline.Base.{
  ℕ, zero, suc, ◌+◌, ◌≤◌, ◌≡◌, inl, inr, refl, sym, ap, ◌∙◌, Bool, true, false, ltb, some, List, [],
  ◌∷◌, ◌++◌, length, map, eqb, eqb→eq, is_empty, arith, append_assoc, length-append, Bool-cases,
  if◌then◌else◌,
}
use readline.Core.Keys.{Keys, peek_key, pop_key, peek_char, to_byte}
use readline.Core.Keys.Queue.{waiting, pop-first}
use readline.History.Match.{has_prefix}
use readline.Inputrc.Config.{Bind, Map}
use readline.Inputrc.Reader.{Text}
use readline.Keymap.{Engine, no_bind}
use readline.Keymap.Matching.{
  match_bind, match_loop, extends_keys, typed_for, bind_of, sort_sequences,
}
use readline.Keymap.Dispatch.{Dispatched, dispatch_loop, dispatch_keys, make_match, popped}

has_prefix-append : (q r : List ℕ) → has_prefix (q ++ r) q ≡ true
unfolding has_prefix
has_prefix-append [] r = refl
has_prefix-append (x ∷ q) r = ground (arith, has_prefix-append q r)

abbrev IsFound : Bind → List Bind → Type 0
IsFound match prefixed = is_empty match.action ≡ false → is_empty prefixed ≡ false

is_empty-snoc : {A : Type 0} (xs : List A) (x : A) → is_empty (xs ++ x ∷ []) ≡ false
is_empty-snoc [] x = refl
is_empty-snoc (y ∷ xs) x = refl

module _ (encode : ℕ → List ℕ) (q : List ℕ) (y : ℕ) (ys : List ℕ) (binds : Map Bind) where
  abbrev full : List ℕ
  full = q ++ y ∷ ys

  extends-full : (s : Text) → eqb full (typed_for encode s) ≡ true → extends_keys encode q s ≡ true
  unfolding extends_keys
  extends-full s e =
      let same = eqb→eq full (typed_for encode s) e in
      let longer : ltb (length q) (length full) ≡ true = ground (arith, length-append q (y ∷ ys)) in
      rw (← same, longer, has_prefix-append q (y ∷ ys)) refl

  -- A sequence that matches all keys is one that a part of the keys is a prefix of.
  match_loop-IsFound :
      (sequences : List Text) (match match' : Bind) (prefixed prefixed' : List Bind)
      → IsFound match prefixed'
      → IsFound
          (match_loop encode full binds sequences (match, prefixed)).0
          (match_loop encode q binds sequences (match', prefixed')).1
  unfolding match_loop
  match_loop-IsFound [] match match' prefixed prefixed' f = f
  match_loop-IsFound (s ∷ rest) match match' prefixed prefixed' f =
      elim (Bool-cases (eqb full (typed_for encode s))) [
        | inl e ↦
            rw (match_loop, e, extends-full s e)
              (match_loop-IsFound rest _ _ _ _
                (λ h. is_empty-snoc prefixed' (bind_of encode binds s)))
        | inr e ↦ elim (Bool-cases (extends_keys encode q s)) [
          | inl g ↦
              rw (match_loop, e, g)
                (match_loop-IsFound rest _ _ _ _
                  (λ h. is_empty-snoc prefixed' (bind_of encode binds s)))
          | inr g ↦ rw (match_loop, e, g) (match_loop-IsFound rest _ _ _ _ f)
        ]
      ]

  match_bind-prefixed :
      is_empty (match_bind encode full binds).0.action ≡ false
      → is_empty (match_bind encode q binds).1 ≡ false
  unfolding match_bind
  match_bind-prefixed h =
      match_loop-IsFound (sort_sequences encode (map (λ entry. entry.0) binds)) no_bind no_bind []
        [] (λ k. k) h

-- What is read: the keys, which are the match of the bind, with the others left.
abbrev pub IsRead : {E : Type 0} → Dispatched E → Bind → List ℕ → List ℕ → List ℕ → Type 0
IsRead d b read matched more =
    (d.engine.active ≡ b)
    × (d.by_prefix ≡ false)
    × (d.read ≡ read)
    × (d.matched ≡ matched)
    × (waiting d.engine.keys ≡ more)

pub kept-keys :
    {E : Type 0} (c : Bool) (m : Engine E) (match : Bind)
    → (if c then m else record m { prefixed = match }).keys ≡ m.keys
kept-keys true m match = refl
kept-keys false m match = refl

length-map : {A B : Type 0} (f : A → B) (xs : List A) → length (map f xs) ≡ length xs
length-map f [] = refl
length-map f (x ∷ xs) = ap suc (length-map f xs)

pub length-waiting :
    (keys : Keys) → length (waiting keys) ≡ length keys.buf + length keys.macro_keys
length-waiting keys =
    length-append keys.buf (map to_byte keys.macro_keys)
    ∙ ap (length keys.buf +◌) (length-map to_byte keys.macro_keys)

module _ (encode : ℕ → List ℕ) {E : Type 0} (binds : Map Bind) (b : Bind) (more : List ℕ) where
  last_key :
      (k n : ℕ) (m : Engine E) (prefix : Bool) (read matched : List ℕ)
      → waiting m.keys ≡ k ∷ more
      → match_bind encode (read ++ k ∷ []) binds ≡ (b, [])
      → is_empty b.action ≡ false
      → IsRead
          (dispatch_loop encode (suc n) binds m prefix read matched)
          b
          (read ++ k ∷ [])
          (matched ++ k ∷ [])
          more
  unfolding dispatch_loop make_match popped
  last_key k n m prefix read matched w e bound =
      let front : peek_key m.keys ≡ some k = rw ((pop-first m.keys).0, w) refl in
      let behind : waiting (pop_key m.keys).0 ≡ more = rw ((pop-first m.keys).4, w) refl in
      let found : (match_bind encode (read ++ k ∷ []) binds).0 ≡ b = ap (λ p. p.0) e in
      let alone : is_empty (match_bind encode (read ++ k ∷ []) binds).1 ≡ true =
        rw (ap (λ p. p.1) e) refl in
      let named : is_empty (match_bind encode (read ++ k ∷ []) binds).0.action ≡ false =
        rw found bound in
      rw (dispatch_loop, front, alone, named) (found, refl, refl, refl, behind)

  -- The keys of a sequence are read one after another, the first ones as a part of it.
  dispatch_loop-IsRead :
      (k : ℕ) (ks : List ℕ) (n : ℕ) (m : Engine E) (prefix : Bool) (read matched : List ℕ)
      → waiting m.keys ≡ k ∷ (ks ++ more)
      → match_bind encode (read ++ k ∷ ks) binds ≡ (b, [])
      → is_empty b.action ≡ false
      → length (k ∷ ks) ≤ n
      → IsRead
          (dispatch_loop encode n binds m prefix read matched)
          b
          (read ++ k ∷ ks)
          (matched ++ k ∷ ks)
          more
  unfolding dispatch_loop popped
  dispatch_loop-IsRead k ks zero m prefix read matched w e bound h = absurd (omega arith)
  dispatch_loop-IsRead k [] (suc n) m prefix read matched w e bound h =
      last_key k n m prefix read matched w e bound
  dispatch_loop-IsRead k (k' ∷ ks) (suc n) m prefix read matched w e bound h =
      let keys = read ++ k ∷ [] in
      let split : (xs : List ℕ) → (xs ++ k ∷ []) ++ k' ∷ ks ≡ xs ++ k ∷ (k' ∷ ks) =
        λ xs. append_assoc xs (k ∷ []) (k' ∷ ks) in
      let e' : match_bind encode (keys ++ k' ∷ ks) binds ≡ (b, []) =
        ap (λ r. match_bind encode r binds) (split read) ∙ e in
      let part : is_empty (match_bind encode keys binds).1 ≡ false =
        match_bind-prefixed encode keys k' ks binds (ap (λ p. is_empty p.0.action) e' ∙ bound) in
      let front : peek_key m.keys ≡ some k = rw ((pop-first m.keys).0, w) refl in
      let behind : waiting (pop_key m.keys).0 ≡ k' ∷ (ks ++ more) =
        rw ((pop-first m.keys).4, w) refl in
      let (active, whole, all, both, left) =
        dispatch_loop-IsRead k' ks n
          (let match = (match_bind encode keys binds).0 in
            if is_empty match.action then popped m else record (popped m) { prefixed = match })
          true keys (matched ++ k ∷ [])
          (ap waiting (kept-keys (is_empty (match_bind encode keys binds).0.action) (popped m) _)
            ∙ behind)
          e' bound (omega arith) in
      rw (dispatch_loop, front, part) (active, whole, all ∙ split read, both ∙ split matched, left)

  -- The keys that wait begin with those of a sequence, of which the first is a rune of one byte: if they
  -- match a bind, and no longer sequence begins with them, then `dispatchKeys` reads just these keys,
  -- counts them as matched, makes that bind the active one, and leaves the keys behind them.
  pub dispatch_keys-IsRead :
      (first_cluster : List ℕ → List ℕ × List ℕ) (m : Engine E) (c k : ℕ) (ks : List ℕ)
      → waiting m.keys ≡ k ∷ (ks ++ more)
      → peek_char first_cluster encode m.keys ≡ some (c ∷ [])
      → match_bind encode (k ∷ ks) binds ≡ (b, [])
      → is_empty b.action ≡ false
      → IsRead (dispatch_keys first_cluster encode m binds) b (k ∷ ks) (k ∷ ks) more
  unfolding dispatch_keys
  dispatch_keys-IsRead first_cluster m c k ks w single e bound =
      let enough : length (k ∷ ks) ≤ length m.keys.buf + length m.keys.macro_keys =
        omega (arith, sym (length-waiting m.keys) ∙ ap length w, length-append ks more) in
      rw (dispatch_keys, single)
        (dispatch_loop-IsRead k ks (length m.keys.buf + length m.keys.macro_keys) m false [] [] w e
          bound enough)
