-- ===== src/Core/Cursor/LineMove/Layout.antt =====
-- The lines of a buffer, and the ends that `newlines` gives for them (internal/core/line.go).
use readline.Base.{
  ℕ, suc, ◌+◌, ◌≤◌, ◌≡◌, refl, ap, ◌∙◌, true, false, List, [], ◌∷◌, ◌++◌, ◌==◌, ltb, length, arith,
  append_assoc, length-append,
}
use readline.Core.Line.{Line}
use readline.Core.Search.Find.{Absent}
use readline.Core.Cursor.LineMove.{line_index}
use readline.Core.Cursor.LineMove.Lines.{line_ends}

-- Whole lines of a buffer, each with its newline behind it.
abbrev pub text_of : List Line → Line
text_of [] = []
text_of (x ∷ above) = x ++ b'\n' ∷ text_of above

abbrev pub AreLines : List Line → Type 0
AreLines [] = Unit
AreLines (x ∷ above) = Absent b'\n' x × AreLines above

abbrev pub size : List Line → ℕ
size above = length (text_of above)

-- The buffer ends there, or a newline follows.
abbrev pub EndsLine : Line → Type 0
EndsLine [] = Unit
EndsLine (r ∷ rest) = r ≡ b'\n'

abbrev pub ends_of : ℕ → List Line → List (ℕ × ℕ)
ends_of k [] = []
ends_of k (x ∷ above) = (k + length x, k + length x + 1) ∷ ends_of (k + length x + 1) above

pub length-ends_of : (k : ℕ) (above : List Line) → length (ends_of k above) ≡ length above
length-ends_of k [] = refl
length-ends_of k (x ∷ above) = ap suc (length-ends_of (k + length x + 1) above)

pub line_ends-line :
    (k : ℕ) (x r : Line)
    → Absent b'\n' x
    → line_ends k (x ++ b'\n' ∷ r)
      ≡ (k + length x, k + length x + 1) ∷ line_ends (k + length x + 1) r
line_ends-line k [] r a = let same : k + 0 ≡ k = omega arith in rw same refl
line_ends-line k (c ∷ x) r (n, a) =
    let other : (c == b'\n') ≡ false = ground (arith, n) in
    let move : k + suc (length x) ≡ (k + 1) + length x = omega arith in
    rw (other, move) (line_ends-line (k + 1) x r a)

pub line_ends-last :
    (k : ℕ) (y rest : Line)
    → Absent b'\n' y
    → EndsLine rest
    → (post : List (ℕ × ℕ)) × (line_ends k (y ++ rest) ≡ (k + length y, k + length y + 1) ∷ post)
line_ends-last k [] [] a e = let same : k + 0 ≡ k = omega arith in ([], rw same refl)
line_ends-last k [] (r ∷ rest) a e =
    let same : k + 0 ≡ k = omega arith in
    let newline : (r == b'\n') ≡ true = ground (arith, e) in
    (line_ends (k + 1) rest, rw (same, newline) refl)
line_ends-last k (c ∷ y) rest (n, a) e =
    let (post, at) = line_ends-last (k + 1) y rest a e in
    let other : (c == b'\n') ≡ false = ground (arith, n) in
    let move : k + suc (length y) ≡ (k + 1) + length y = omega arith in (post, rw (other, move) at)

pub line_ends-text_of :
    (k : ℕ) (above : List Line) (r : Line)
    → AreLines above
    → line_ends k (text_of above ++ r) ≡ ends_of k above ++ line_ends (k + size above) r
line_ends-text_of k [] r a = let same : k + 0 ≡ k = omega arith in rw same refl
line_ends-text_of k (x ∷ above) r (n, a) =
    let later = line_ends-text_of (k + length x + 1) above r a in
    let whole : k + length (x ++ b'\n' ∷ text_of above) ≡ (k + length x + 1) + size above =
      omega (arith, length-append x (b'\n' ∷ text_of above)) in
    ap (line_ends k) (append_assoc x (b'\n' ∷ text_of above) r)
    ∙ line_ends-line k x (text_of above ++ r) n
    ∙ rw whole (ap ((k + length x, k + length x + 1) ∷◌) later)

-- The lines in front of a position do not end at it or behind it.
pub line_index-ends_of :
    (k : ℕ) (above : List Line) (rest : List (ℕ × ℕ)) (at n : ℕ)
    → k + size above ≤ at
    → line_index (ends_of k above ++ rest) at n ≡ line_index rest at (n + length above)
unfolding line_index
line_index-ends_of k [] rest at n h = ap (line_index rest at) (omega arith)
line_index-ends_of k (x ∷ above) rest at n h =
    let long = length-append x (b'\n' ∷ text_of above) in
    let before : ltb (k + length x) at ≡ true = ground (arith, long, h) in
    rw before (
      line_index-ends_of (k + length x + 1) above rest at (n + 1) (omega (arith, long))
      ∙ ap (line_index rest at) (omega arith))
