-- ===== src/Strutil/Quotes/Start.antt =====
-- The position that `GetQuotedWordStart` gives (internal/strutil/surround.go).
use readline.Base.{
  ℕ, ◌+◌, ◌≡◌, refl, sym, ap, ◌∙◌, true, false, some, List, [], ◌∷◌, ◌++◌, length, get_elem?, arith,
  append_assoc, length-append, get_elem?-append, Bool-cases, ◌⊎◌, inl, inr, ◌==◌, ==_iff, not, ◌&&◌,
}
use readline.Base.Int.{ℤ, pos, minus_one}
use readline.Strutil.Quotes.{Scan, scan_start, scan_rune, scan, get_quoted_word_start}

-- The position is that of a quote in the line.
IsQuoteAt : List ℕ → ℕ → ℤ → Type 0
IsQuoteAt line quote at = (p : ℕ) × (at ≡ pos p) × (get_elem? line p ≡ some quote)

-- Each open quote was noted where it stands.
record IsNoted (line : List ℕ) (s : Scan) : Type 0 where
  double : s.in_double ≡ true → IsQuoteAt line b'"' s.dpos
  single : s.in_single ≡ true → IsQuoteAt line b'\'' s.spos

scan_rune-IsNoted :
    (line : List ℕ) (s : Scan) (i r : ℕ)
    → get_elem? line i ≡ some r
    → IsNoted line s
    → IsNoted line (scan_rune s i r)
unfolding scan_rune IsQuoteAt
scan_rune-IsNoted line s i r h n = elim (Bool-cases s.escaped) [
  | inl e ↦ simp (scan_rune, e) (record { double = n.double; single = n.single })
  | inr e ↦ elim (Bool-cases ((r == b'\\') && not s.in_single)) [
    | inl b ↦ simp (scan_rune, e, b) (record { double = n.double; single = n.single })
    | inr b ↦ elim (Bool-cases (r == b'"')) [
      | inl q ↦ elim (Bool-cases s.in_single) [
        | inl k ↦ simp (scan_rune, e, b, q) (simp k n)
        | inr k ↦ elim (Bool-cases s.in_double) [
          | inl d ↦
              simp (scan_rune, e, b, q)
                (simp (k, d) (record { double = λ o. cc; single = λ o. cc }))
          | inr d ↦
              simp (scan_rune, e, b, q)
                (simp (k, d)
                  (record {
                    double = λ o. (i, refl, h ∙ ap some ((==_iff r b'"').0 q));
                    single = λ o. cc;
                  }))
        ]
      ]
      | inr q ↦ elim (Bool-cases (r == b'\'')) [
        | inl q' ↦ elim (Bool-cases s.in_double) [
          | inl k ↦ simp (scan_rune, e, b, q, q') (simp k n)
          | inr k ↦ elim (Bool-cases s.in_single) [
            | inl d ↦
                simp (scan_rune, e, b, q, q')
                  (simp (k, d) (record { double = λ o. cc; single = λ o. cc }))
            | inr d ↦
                simp (scan_rune, e, b, q, q')
                  (simp (k, d)
                    (record {
                      double = λ o. cc;
                      single = λ o. (i, refl, h ∙ ap some ((==_iff r b'\'').0 q'));
                    }))
          ]
        ]
        | inr q' ↦ simp (scan_rune, e, b, q, q') n
      ]
    ]
  ]
]

scan-IsNoted :
    (rest seen : List ℕ) (s : Scan) (i : ℕ)
    → i ≡ length seen
    → IsNoted (seen ++ rest) s
    → IsNoted (seen ++ rest) (scan s i rest)
unfolding scan
scan-IsNoted [] seen s i e n = n
scan-IsNoted (r ∷ rest) seen s i e n =
    let next = scan_rune-IsNoted (seen ++ r ∷ rest) s i r (get_elem?-append seen rest r i e) n in
    let same = append_assoc seen (r ∷ []) rest in
    rw (sym same) (
      scan-IsNoted rest (seen ++ r ∷ []) (scan_rune s i r) (i + 1)
        (omega (arith, length-append seen (r ∷ []))) (rw (sym same) at next))

-- `GetQuotedWordStart` finds that all quotes are closed, or gives the position of a quote in the line.
get_quoted_word_start_lem :
    (line : List ℕ)
    → (get_quoted_word_start line ≡ (false, minus_one))
      ⊎ ((p : ℕ) × (get_quoted_word_start line ≡ (true, pos p))
          × ((get_elem? line p ≡ some b'"') ⊎ (get_elem? line p ≡ some b'\'')))
unfolding get_quoted_word_start IsQuoteAt
get_quoted_word_start_lem line =
    let n =
      scan-IsNoted line [] scan_start 0 refl (record { double = λ o. cc; single = λ o. cc }) in
    let s = scan scan_start 0 line in
    elim (Bool-cases s.in_double) [
      | inl d ↦ let (p, e, h) = n.double d in inr (p, rw (get_quoted_word_start, d, e) refl, inl h)
      | inr d ↦ elim (Bool-cases s.in_single) [
        | inl k ↦
            let (p, e, h) = n.single k in inr (p, rw (get_quoted_word_start, d, k, e) refl, inr h)
        | inr k ↦ inl (rw (get_quoted_word_start, d, k) refl)
      ]
    ]
