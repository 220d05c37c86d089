-- ===== src/Inputrc/Unescape/Runes.antt =====
-- Single runes, escaped (inputrc/inputrc.go) and unescaped (inputrc/parse.go).
use Prim.Native.Nat.{bit_and, bit_or}
use readline.Base.{
  ℕ, zero, suc, ◌+◌, ◌-◌, ◌≤◌, ◌<◌, ◌≡◌, ◌≢◌, refl, Bool, true, false, ◌&&◌, ◌||◌, not, List, [],
  ◌∷◌, ◌==◌, leb, ltb, if◌then◌else◌, arith, ◌⊎◌, Bool-cases, inl, inr,
}
use readline.Inputrc.Codes.{encontrol, enmeta}
use readline.Inputrc.Escape.{escape_default}
use readline.Inputrc.Unescape.{unescape_step, unescape_loop, letter_code}

-- A test that holds of each of some runes in a row, from the first one on.
passes : (test : ℕ → Bool) → (first count : ℕ) → Bool
passes test first zero = true
passes test first (suc count) = test first && passes test (first + 1) count

passes-at :
    (test : ℕ → Bool) (first count c : ℕ)
    → passes test first count ≡ true
    → first ≤ c
    → c < first + count
    → test c ≡ true
unfolding passes
passes-at test first zero c t low high = absurd (omega arith)
passes-at test first (suc count) c t low high = elim (Bool-cases (first == c)) [
  | inl k ↦ ground arith
  | inr k ↦ passes-at test (first + 1) count c (ground arith) (ground arith) (omega arith)
]

control_table :
    passes
      (λ c. (bit_or c 0x40 == c + 64) && ((bit_and (c + 64) 0x1f == c) && (bit_and c 0x80 == 0)))
      0
      32
    ≡ true
unfolding passes
control_table = refl

meta_table :
    passes (λ c. (bit_and (c + 128) 0x80 == 128) && (bit_or c 0x80 == c + 128)) 0 128 ≡ true
unfolding passes
meta_table = refl

control_bits :
    (c : ℕ) → c < 32 → (bit_or c 0x40 ≡ c + 64) × (bit_and (c + 64) 0x1f ≡ c) × (bit_and c 0x80 ≡ 0)
control_bits c h =
    let t =
      passes-at
        (λ c. (bit_or c 0x40 == c + 64) && ((bit_and (c + 64) 0x1f == c) && (bit_and c 0x80 == 0)))
        0 32 c control_table (omega arith) (omega arith) in
    ground arith

meta_bits : (c : ℕ) → c < 128 → (bit_and (c + 128) 0x80 ≡ 128) × (bit_or c 0x80 ≡ c + 128)
meta_bits c h =
    let t =
      passes-at (λ c. (bit_and (c + 128) 0x80 == 128) && (bit_or c 0x80 == c + 128)) 0 128 c
        meta_table (omega arith) (omega arith) in
    ground arith

-- To prove a property of the branch that a test takes.
pub branch :
    (b : Bool) (P : List ℕ → Type 0) (x y : List ℕ)
    → (b ≡ true → P x)
    → (b ≡ false → P y)
    → P (if b then x else y)
branch true P x y h k = h refl
branch false P x y h k = k refl

-- The runes that a backslash keeps.
abbrev pub is_quoting : ℕ → Bool
is_quoting c = (c == b'\\') || ((c == b'"') || (c == b'\''))

pub quoting : (c : ℕ) → is_quoting c ≡ true → (letter_code c ≡ c) × (1 ≤ c)
unfolding letter_code
quoting c h = ground arith

pub not_quoting : (c : ℕ) → is_quoting c ≡ false → c ≢ b'\\'
not_quoting c h = ground arith

pub named_ne : (c k : ℕ) → (c == k) ≡ false → c ≢ k
named_ne c k h = ground arith

-- The runes that come back: all but 28, the meta ones whose rest is a control code, a backslash or 127,
-- and those above 255 that do not print.
unfoldable pub is_plain : (ℕ → Bool) → ℕ → Bool
is_plain is_print c =
    (ltb c 32 && not (c == 28))
    || ((leb 32 c && leb c 127)
        || ((leb 160 c && (ltb c 255 && not (c == 220))) || (ltb 255 c && is_print c)))

-- Every rune of the text comes back.
unfoldable pub AllPlain : (ℕ → Bool) → List ℕ → Type 0
AllPlain is_print [] = Unit
AllPlain is_print (c ∷ s) = (is_plain is_print c ≡ true) × AllPlain is_print s

module _ (to_upper : ℕ → ℕ) (is_print : ℕ → Bool) (hex : ℕ → List ℕ)
    (upper : (c : ℕ) → 64 ≤ c → c < 96 → to_upper c ≡ c)
    (prints : (c : ℕ) → 32 ≤ c → c < 127 → is_print c ≡ true) where
  pub escape_default-control :
      (c : ℕ)
      → c < 32
      → escape_default to_upper is_print hex c ≡ b'\\' ∷ b'C' ∷ b'-' ∷ (c + 64) ∷ []
  unfolding escape_default
  escape_default-control c h =
      let (bit, mask, clear) = control_bits c h in ground (arith, upper (c + 64), prints (c + 64))

  pub escape_default-meta :
      (c : ℕ)
      → 160 ≤ c
      → c < 255
      → escape_default to_upper is_print hex c ≡ b'\\' ∷ b'M' ∷ b'-' ∷ (c - 128) ∷ []
  unfolding escape_default
  escape_default-meta c h k =
      let (mask, bit) = meta_bits (c - 128) (omega arith) in
      let same : c - 128 + 128 ≡ c = omega arith in
      let mask' : bit_and c 0x80 ≡ 128 = rw same at mask in ground (arith, prints (c - 128))

  pub escape_default-print :
      (c : ℕ)
      → 32 ≤ c
      → (c < 127) ⊎ (255 < c)
      → is_print c ≡ true
      → escape_default to_upper is_print hex c ≡ c ∷ []
  unfolding escape_default
  escape_default-print c h k p = ground arith

  pub unescape-control :
      (c : ℕ) (rest : List ℕ)
      → c < 32
      → c ≢ 28
      → unescape_loop to_upper 0 (b'\\' ∷ b'C' ∷ b'-' ∷ (c + 64) ∷ rest)
        ≡ c ∷ unescape_loop to_upper 0 rest
  unfolding unescape_loop unescape_step encontrol
  unescape-control c rest h n =
      let (bit, mask, clear) = control_bits c h in ground (arith, upper (c + 64))

  pub unescape-meta :
      (c : ℕ) (rest : List ℕ)
      → 160 ≤ c
      → c < 255
      → c ≢ 220
      → unescape_loop to_upper 0 (b'\\' ∷ b'M' ∷ b'-' ∷ (c - 128) ∷ rest)
        ≡ c ∷ unescape_loop to_upper 0 rest
  unfolding unescape_loop unescape_step enmeta
  unescape-meta c rest h k n =
      let (mask, bit) = meta_bits (c - 128) (omega arith) in
      let same : c - 128 + 128 ≡ c = omega arith in ground arith

  pub unescape-print :
      (c : ℕ) (rest : List ℕ)
      → c ≢ b'\\'
      → unescape_loop to_upper 0 (c ∷ rest) ≡ c ∷ unescape_loop to_upper 0 rest
  unfolding unescape_loop
  unescape-print c rest n = ground arith
