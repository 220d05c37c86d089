-- ===== src/Core/Surround.antt =====
-- The pairs of brackets and quotes: `MatchSurround` and `IsSurround` of internal/strutil/surround.go.
use readline.Base.{ℕ, ◌≡◌, ◌⊎◌, Bool, true, arith, ◌==◌, if◌then◌else◌}

-- The opening and the closing rune of the pair that a rune belongs to. Any other rune is its own
-- pair, and so are the quotes.
unfoldable pub match_surround : ℕ → ℕ × ℕ
match_surround r =
    if r == b'{'
    then (r, b'}')
    else if r == b'('
    then (r, b')')
    else if r == b'['
    then (r, b']')
    else if r == b'<'
    then (r, b'>')
    else if r == b'}'
    then (b'{', b'}')
    else if r == b')'
    then (b'(', b')')
    else if r == b']'
    then (b'[', b']')
    else if r == b'>'
    then (b'<', b'>')
    else (r, r)

unfoldable pub is_surround : ℕ → ℕ → Bool
is_surround bchar echar =
    if bchar == b'{'
    then echar == b'}'
    else if bchar == b'('
    then echar == b')'
    else if bchar == b'['
    then echar == b']'
    else if bchar == b'<'
    then echar == b'>'
    else echar == bchar

-- What `MatchSurround` gives is a pair in the sense of `IsSurround`, the rune is one of its two, and
-- both of the two give that same pair.
match_surround-is_surround :
    (r : ℕ)
    → (is_surround (match_surround r).0 (match_surround r).1 ≡ true)
      × ((r ≡ (match_surround r).0) ⊎ (r ≡ (match_surround r).1))
      × (match_surround (match_surround r).0 ≡ match_surround r)
      × (match_surround (match_surround r).1 ≡ match_surround r)
unfolding match_surround is_surround
match_surround-is_surround r = ground arith
