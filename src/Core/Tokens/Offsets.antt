-- ===== src/Core/Tokens/Offsets.antt =====
-- Where the tokens of a line lie (internal/core/line.go).
use readline.Base.{
  ℕ, zero, suc, ◌+◌, ◌≤◌, ◌<◌, ◌≡◌, ◌≢◌, refl, sym, ap, ◌∙◌, Bool, Option, some, List, [], ◌∷◌,
  ◌++◌, ◌==◌, length, take, arith, append_assoc, append-nil, length-append, take_all, Bool-cases,
  inl, inr,
}
use readline.Core.Line.{Line}
use readline.Core.Tokens.{Tokens, no_tokens, bytes, add_rune, note_cursor, token_loop}

-- The text of some tokens.
unfoldable pub joined : List Line → Line
joined [] = []
joined (t ∷ ts) = t ++ joined ts

pub joined-append : (xs ys : List Line) → joined (xs ++ ys) ≡ joined xs ++ joined ys
unfolding joined
joined-append [] ys = refl
joined-append (x ∷ xs) ys =
    ap (x ++◌) (joined-append xs ys) ∙ sym (append_assoc x (joined xs) (joined ys))

pub take-append_le :
    {A : Type 0} (n : ℕ) (xs ys : List A) → n ≤ length xs → take n (xs ++ ys) ≡ take n xs
take-append_le zero xs ys h = refl
take-append_le (suc n) [] ys h = absurd (omega arith)
take-append_le (suc n) (x ∷ xs) ys h = ap (x ∷◌) (take-append_le n xs ys (omega arith))

module _ (rune_len : ℕ → ℕ) (positive : (r : ℕ) → 0 < rune_len r) where
  pub bytes-append : (s t : Line) → bytes rune_len (s ++ t) ≡ bytes rune_len s + bytes rune_len t
  unfolding bytes
  bytes-append [] t = omega arith
  bytes-append (r ∷ s) t = omega (arith, bytes-append s t)

  -- After the runes `seen`, the tokens are these runes. If the cursor was among them, the index and the
  -- position point to the last byte of its rune.
  pub record IsSplit (cpos : ℕ) (seen : Line) (t : Tokens) : Type 0 where
    pub text : joined t.done ++ t.token ≡ seen
    pub index : cpos < length seen → t.index ≤ length t.done
    pub offset :
        cpos < length seen
        → bytes rune_len (joined (take t.index t.done)) + t.at + 1
          ≡ bytes rune_len (take (suc cpos) seen)

  note_cursor-text :
      (i cpos : ℕ) (t : Tokens)
      → ((note_cursor rune_len i cpos t).done ≡ t.done)
        × ((note_cursor rune_len i cpos t).token ≡ t.token)
  unfolding note_cursor
  note_cursor-text i cpos t = elim (Bool-cases (i == cpos)) [
    | inl h ↦ rw (note_cursor, h) (refl, refl)
    | inr h ↦ rw (note_cursor, h) (refl, refl)
  ]

  note_cursor-IsSplit :
      (i cpos c : ℕ) (seen : Line) (t : Tokens)
      → i ≡ length seen
      → joined t.done ++ t.token ≡ seen ++ c ∷ []
      → 0 < bytes rune_len t.token
      → (cpos < length seen → t.index ≤ length t.done)
      → (cpos < length seen
          → bytes rune_len (joined (take t.index t.done)) + t.at + 1
            ≡ bytes rune_len (take (suc cpos) seen))
      → IsSplit cpos (seen ++ c ∷ []) (note_cursor rune_len i cpos t)
  unfolding note_cursor
  note_cursor-IsSplit i cpos c seen t e text full index offset = elim (Bool-cases (i == cpos)) [
    | inl h ↦
        let here : cpos ≡ length seen = ground arith in
        let whole =
          take_all (suc cpos) (seen ++ c ∷ []) (omega (arith, length-append seen (c ∷ []))) in
        let sum = bytes-append (joined t.done) t.token in
        let same = ap (bytes rune_len) text in
        rw (note_cursor, h)
          (record {
            text = text;
            index = λ b. omega arith;
            offset = λ b. rw (take_all (length t.done) t.done (omega arith), whole) (omega arith);
          })
    | inr h ↦
        let other : cpos ≢ i = ground arith in
        let longer = length-append seen (c ∷ []) in
        rw (note_cursor, h)
          (record {
            text = text;
            index = λ b. index (omega arith);
            offset = λ b.
                rw (take-append_le (suc cpos) seen (c ∷ []) (omega arith)) (offset (omega arith));
          })
  ]

module _ (starts : Option ℕ → Bool → ℕ → Bool) (flag : ℕ → Bool) where
  -- Adding a rune keeps the text, and the tokens in front of the last one.
  add_rune-text :
      (prev : Option ℕ) (t : Tokens) (c : ℕ)
      → joined (add_rune starts flag prev t c).done ++ (add_rune starts flag prev t c).token
        ≡ (joined t.done ++ t.token) ++ c ∷ []
  unfolding joined add_rune
  add_rune-text prev t c = elim (Bool-cases (starts prev t.flag c)) [
    | inl h ↦ rw (add_rune, h, joined-append t.done (t.token ∷ []), append-nil t.token) refl
    | inr h ↦ rw (add_rune, h) (sym (append_assoc (joined t.done) t.token (c ∷ [])))
  ]

  add_rune-index :
      (prev : Option ℕ) (t : Tokens) (c : ℕ)
      → ((add_rune starts flag prev t c).index ≡ t.index)
        × ((add_rune starts flag prev t c).at ≡ t.at)
        × (t.index ≤ length t.done → t.index ≤ length (add_rune starts flag prev t c).done)
        × (t.index ≤ length t.done
            → take t.index (add_rune starts flag prev t c).done ≡ take t.index t.done)
  unfolding add_rune
  add_rune-index prev t c = elim (Bool-cases (starts prev t.flag c)) [
    | inl h ↦
        rw (add_rune, h)
          (
            refl,
            refl,
            (λ k. omega (arith, length-append t.done (t.token ∷ []))),
            λ k. take-append_le t.index t.done (t.token ∷ []) k,
          )
    | inr h ↦ rw (add_rune, h) (refl, refl, (λ k. k), λ k. refl)
  ]

  add_rune-token :
      (rune_len : ℕ → ℕ) (prev : Option ℕ) (t : Tokens) (c : ℕ)
      → ((r : ℕ) → 0 < rune_len r)
      → 0 < bytes rune_len (add_rune starts flag prev t c).token
  unfolding add_rune bytes
  add_rune-token rune_len prev t c positive = elim (Bool-cases (starts prev t.flag c)) [
    | inl h ↦ rw (add_rune, h) (omega (arith, positive c))
    | inr h ↦
        rw (add_rune, h)
          (omega (arith, positive c, bytes-append rune_len positive t.token (c ∷ [])))
  ]

  module _ (rune_len : ℕ → ℕ) (positive : (r : ℕ) → 0 < rune_len r) (cpos : ℕ) where
    add_rune-IsSplit :
        (prev : Option ℕ) (seen : Line) (t : Tokens) (c : ℕ)
        → IsSplit rune_len positive cpos seen t
        → IsSplit rune_len positive cpos
            (seen ++ c ∷ [])
            (note_cursor rune_len (length seen) cpos (add_rune starts flag prev t c))
    add_rune-IsSplit prev seen t c s =
        let (same_index, same_at, index, front) = add_rune-index prev t c in
        note_cursor-IsSplit rune_len positive (length seen) cpos c seen
          (add_rune starts flag prev t c) refl (add_rune-text prev t c ∙ ap (◌++ c ∷ []) s.text)
          (add_rune-token rune_len prev t c positive) (λ b. rw same_index (index (s.index b)))
          (λ b. rw (same_index, same_at, front (s.index b)) (s.offset b))

    pub token_loop-IsSplit :
        (line seen : Line) (prev : Option ℕ) (t : Tokens) (i : ℕ)
        → i ≡ length seen
        → IsSplit rune_len positive cpos seen t
        → IsSplit rune_len positive cpos
            (seen ++ line)
            (token_loop rune_len starts flag prev i cpos line t)
    unfolding token_loop
    token_loop-IsSplit [] seen prev t i e s = rw (append-nil seen) s
    token_loop-IsSplit (c ∷ line) seen prev t i e s =
        rw (sym (append_assoc seen (c ∷ []) line), e)
          (token_loop-IsSplit line (seen ++ c ∷ []) (some c)
            (note_cursor rune_len (length seen) cpos (add_rune starts flag prev t c))
            (length seen + 1) (omega (arith, length-append seen (c ∷ [])))
            (add_rune-IsSplit prev seen t c s))

    pub no_tokens-IsSplit : IsSplit rune_len positive cpos [] no_tokens
    unfolding joined
    no_tokens-IsSplit = record {
      text = refl;
      index = λ b. absurd (omega arith);
      offset = λ b. absurd (omega arith);
    }
