-- ===== src/Shell/PairDeletion.antt =====
-- The pairs that `AutopairInsertOrJump` inserts, and `AutopairDelete` deletes (internal/completion/syntax.go).
use readline.Base.{
  ℕ, suc, ◌+◌, ◌≤◌, ◌≡◌, ◌≢◌, refl, sym, ap, ◌∙◌, true, false, some, [], ◌∷◌, ◌++◌, length, drop,
  arith, take-append, drop-append, length-append, get_elem?-append, append_assoc,
}
use readline.Base.Int.{ℤ, pos, eqb_ℤ, ◌-ℤ◌}
use readline.Core.Line.{Line, insert, cut_rune}
use readline.Core.Line.Edits.{insert_lem, cut_rune_inside, NoNullEnd}
use readline.Core.Surround.{match_surround, is_surround}
use readline.Core.Cursor.{Cursor, dec, insert_at}
use readline.Core.Cursor.Checks.{IsValid, check_append_id}
use readline.Core.Cursor.Command.{cursor_at, char_lem}
use readline.Core.Cursor.Motion.{insert_at_lem}
use readline.Strutil.Quotes.{surround_type}
use readline.Shell.Transposing.{index-at, back, get-second}
use readline.Shell.Pairs.{is_quote, autopair_insert_or_jump, autopair_delete}

opener_facts :
    (key : ℕ)
    → surround_type key ≡ (true, false)
    → (is_quote key ≡ false)
      × (is_surround key (match_surround key).1 ≡ true)
      × ((match_surround key).1 ≢ 0)
      × (key ≢ 0)
unfolding surround_type is_quote match_surround is_surround
opener_facts key e = ground (arith, e)

-- The sizes and the parts of a line that is cut at the cursor.
longer-IsValid :
    (a b c : Line) (i j : ℕ) (m : ℤ)
    → IsValid (cursor_at i m (a ++ b))
    → j ≤ length (a ++ c)
    → length b ≤ length c
    → IsValid (cursor_at j m (a ++ c))
longer-IsValid a b c i j m v h k = ground (arith, v, length-append {0} a b, length-append {0} a c)

cut_rune-front : (a b : Line) (r : ℕ) → cut_rune (a ++ r ∷ b) (pos (length a)) ≡ some (a ++ b)
cut_rune-front a b r =
    cut_rune_inside (a ++ r ∷ b) (length a) (omega (arith, length-append {0} a (r ∷ b)))
    ∙ rw (take-append (length a) a (r ∷ b) refl, rest) refl
  where
    rest : drop (length a + 1) (a ++ r ∷ b) ≡ b
    rest =
        rw (sym (append_assoc a (r ∷ []) b))
          (drop-append (length a + 1) (a ++ r ∷ []) b (omega (arith, length-append {0} a (r ∷ []))))

ends : (x : ℕ) → x ≢ 0 → NoNullEnd (x ∷ [])
ends x k e h = ground (arith, k, h)

module _ (a b : Line) (m : ℤ) (key : ℕ) where
  -- The closing rune of the key.
  abbrev closer : ℕ
  closer = (match_surround key).1

  insert_front : (r : ℕ) → r ≢ 0 → insert (a ++ b) (pos (length a)) (r ∷ []) ≡ a ++ r ∷ b
  insert_front r n =
      insert_lem (a ++ b) (r ∷ []) (length a) (omega (arith, length-append {0} a b)) (ends r n)
      ∙ rw (take-append (length a) a b refl, drop-append (length a) a b refl) refl

  autopair_insert-opener :
      IsValid (cursor_at (length a) m (a ++ b))
      → surround_type key ≡ (true, false)
      → autopair_insert_or_jump key (cursor_at (length a) m (a ++ b))
        ≡ (cursor_at (length a) m (a ++ closer ∷ b), false)
  unfolding autopair_insert_or_jump
  autopair_insert-opener v opens =
      let (no_quote, pair, set, key_set) = opener_facts key opens in
      rw
        (
          opens,
          no_quote,
          check_append_id (cursor_at (length a) m (a ++ b)) v,
          insert_front closer set,
        )
        refl

  typed : Line
  typed = a ++ key ∷ (closer ∷ b)

  type_key :
      IsValid (cursor_at (length a) m (a ++ closer ∷ b))
      → key ≢ 0
      → (insert_at (cursor_at (length a) m (a ++ closer ∷ b)) (key ∷ [])
          ≡ cursor_at (suc (length a)) m typed)
        × IsValid (cursor_at (suc (length a)) m typed)
  unfolding typed
  type_key v n =
      let (e, w) = insert_at_lem (length a) m (a ++ closer ∷ b) (key ∷ []) v (ends key n) in
      let there : insert_at (cursor_at (length a) m (a ++ closer ∷ b)) (key ∷ [])
          ≡ cursor_at (suc (length a)) m typed =
        e
        ∙ rw
            (take-append (length a) a (closer ∷ b) refl, drop-append (length a) a (closer ∷ b) refl)
            (ap (λ j. cursor_at j m typed) (omega arith)) in
      (there, rw there at w)

  cut_closer : cut_rune typed (pos (suc (length a))) ≡ some (a ++ key ∷ b)
  unfolding typed
  cut_closer =
      rw (sym (append_assoc a (key ∷ []) (closer ∷ b)), sym (append_assoc a (key ∷ []) b))
        (ap (λ j. cut_rune ((a ++ key ∷ []) ++ closer ∷ b) (pos j)) (sym size)
          ∙ cut_rune-front (a ++ key ∷ []) b closer)
    where
      size : length (a ++ key ∷ []) ≡ suc (length a)
      size = omega (arith, length-append {0} a (key ∷ []))

  delete_closer :
      IsValid (cursor_at (suc (length a)) m typed)
      → surround_type key ≡ (true, false)
      → autopair_delete (cursor_at (suc (length a)) m typed)
        ≡ some (cursor_at (suc (length a)) m (a ++ key ∷ b))
  unfolding autopair_delete typed
  delete_closer v opens =
      let (no_quote, pair, set, key_set) = opener_facts key opens in
      let behind : eqb_ℤ (pos (suc (length a))) (pos 0) ≡ false = ground arith in
      rw
        (
          check_append_id (cursor_at (suc (length a)) m typed) v,
          behind,
          back (length a) (suc (length a)) 1 (omega arith),
          index-at typed (length a) key (get_elem?-append a (closer ∷ b) key (length a) refl),
          char_lem (suc (length a)) closer m typed v (get-second a b key closer),
          opens,
          pair,
          cut_closer,
        )
        refl

  dec_behind :
      dec (cursor_at (suc (length a)) m (a ++ key ∷ b)) ≡ cursor_at (length a) m (a ++ key ∷ b)
  unfolding dec ◌-ℤ◌
  dec_behind = ground arith

  -- At a valid cursor an opening bracket is typed with its closing one behind the cursor, and the
  -- deletion of the bracket takes both away, so that the line is the one before.
  pub autopair_delete-autopair_insert :
      IsValid (cursor_at (length a) m (a ++ b))
      → surround_type key ≡ (true, false)
      → (c : Cursor) × (d : Cursor) × (autopair_insert_or_jump key (cursor_at (length a) m (a ++ b))
          ≡ (c, false))
        × ((insert_at c (key ∷ [])).line ≡ a ++ key ∷ ((match_surround key).1 ∷ b))
        × (autopair_delete (insert_at c (key ∷ [])) ≡ some d)
        × (cut_rune (dec d).line (dec d).pos ≡ some (a ++ b))
  unfolding typed
  autopair_delete-autopair_insert v opens =
      let (no_quote, pair, set, key_set) = opener_facts key opens in
      let wide =
        longer-IsValid a b (closer ∷ b) (length a) (length a) m v
          (omega (arith, length-append {0} a (closer ∷ b))) (omega arith) in
      let (there, w) = type_key wide key_set in
      (
        cursor_at (length a) m (a ++ closer ∷ b),
        cursor_at (suc (length a)) m (a ++ key ∷ b),
        autopair_insert-opener v opens,
        ap (λ (c : Cursor). c.line) there,
        ap autopair_delete there ∙ delete_closer w opens,
        rw dec_behind (cut_rune-front a b key),
      )
