-- ===== src/Inputrc/Unescape/RoundTrip.antt =====
-- Texts that are escaped, and unescaped again (inputrc/inputrc.go).
use Prim.Native.Nat.{bit_or}
use readline.Base.{
  ℕ, ◌-◌, ◌*◌, ◌≤◌, ◌<◌, ◌≡◌, ◌≢◌, refl, ap, ◌∙◌, Bool, true, false, ◌&&◌, List, [], ◌∷◌, ◌++◌,
  ◌==◌, leb, ltb, length, take, drop, arith, ==_iff, take_all, Bool-cases, inl, inr,
}
use readline.Inputrc.Codes.{delete_code, return_code, encontrol}
use readline.Inputrc.Escape.{
  Names, escape_names, macro_names, escape_default, escape_rune, escape_with, escape, escape_macro,
}
use readline.Inputrc.Unescape.{
  unescape_step, unescape_loop, unescape_runes, unescape, letter_code, hex_digit, hex_val,
}
use readline.Inputrc.Unescape.Runes.{
  is_quoting, quoting, not_quoting, named_ne, branch, is_plain, AllPlain, escape_default-control,
  escape_default-meta, escape_default-print, unescape-control, unescape-meta, unescape-print,
}

whole_text : (t : List ℕ) → take (length t - 0) (drop 0 t) ≡ t
whole_text t =
    let whole : length t - 0 ≡ length t = omega arith in
    rw whole (take_all (length t) t (omega arith))

-- A text of one rune is not looked at.
unescape-single :
    (to_upper : ℕ → ℕ) (t : List ℕ)
    → t ≢ b'\\' ∷ []
    → unescape to_upper t ≡ unescape_loop to_upper 0 t
unfolding unescape unescape_runes unescape_loop
unescape-single to_upper [] h = refl
unescape-single to_upper (x ∷ []) h = let plain : x ≢ b'\\' = λ e. h (ap (◌∷ []) e) in ground arith
unescape-single to_upper (x ∷ (y ∷ t)) h =
    let longer : (length (x ∷ y ∷ t) == 1) ≡ false = ground arith in
    rw (unescape, unescape_runes, longer) (ap (unescape_loop to_upper 0) (whole_text (x ∷ y ∷ t)))

module _ (to_upper : ℕ → ℕ) (is_print : ℕ → Bool) (hex : ℕ → List ℕ)
    (upper : (c : ℕ) → 64 ≤ c → c < 96 → to_upper c ≡ c)
    (prints : (c : ℕ) → 32 ≤ c → c < 127 → is_print c ≡ true) where
  -- A text that unescapes to the rune, and is not a backslash alone.
  abbrev Unescapes : ℕ → List ℕ → List ℕ → Type 0
  Unescapes c rest text =
      (unescape_loop to_upper 0 (text ++ rest) ≡ c ∷ unescape_loop to_upper 0 rest)
      × (text ++ rest ≢ b'\\' ∷ [])

  unescape-letter :
      (c x : ℕ) (rest : List ℕ) → letter_code x ≡ c → 1 ≤ c → Unescapes c rest (b'\\' ∷ x ∷ [])
  unfolding unescape_loop unescape_step
  unescape-letter c x rest h k = (ground arith, λ e. cc)

  unescape-default :
      (c : ℕ) (rest : List ℕ)
      → is_plain is_print c ≡ true
      → c ≢ 127
      → c ≢ b'\\'
      → Unescapes c rest (escape_default to_upper is_print hex c)
  unfolding is_plain
  unescape-default c rest h d b = elim (Bool-cases (ltb c 32)) [
    | inl low ↦
        let less : c < 32 = ground arith in
        rw (escape_default-control to_upper is_print hex upper prints c less)
          (unescape-control to_upper is_print hex upper prints c rest less (ground arith), λ e. cc)
    | inr high ↦ elim (Bool-cases (leb 160 c && ltb c 255)) [
      | inl meta ↦
          let from : 160 ≤ c = ground arith in
          let to : c < 255 = ground arith in
          rw (escape_default-meta to_upper is_print hex upper prints c from to) (
            unescape-meta to_upper is_print hex upper prints c rest from to (ground arith),
            λ e. cc,
          )
      | inr other ↦
          rw
            (escape_default-print to_upper is_print hex upper prints c (ground arith) (ground arith)
              (ground (arith, prints c)))
            (unescape-print to_upper is_print hex upper prints c rest b, λ e. ground arith)
    ]
  ]

  -- The two maps of names give texts that are unescaped.
  record IsNames (m : Names) : Type 0 where
    delete : (rest : List ℕ) → Unescapes delete_code rest m.delete
    return : (rest : List ℕ) → Unescapes return_code rest m.return

  escape_names-IsNames : IsNames escape_names
  unfolding unescape_loop unescape_step encontrol
  escape_names-IsNames = record {
    delete = λ rest. (ground arith, λ e. cc);
    return = λ rest. (ground (arith, upper b'M'), λ e. cc);
  }

  macro_names-IsNames : IsNames macro_names
  unfolding unescape_loop unescape_step
  macro_names-IsNames = record {
    delete = λ rest. (refl, λ e. cc);
    return = λ rest. (refl, λ e. cc);
  }

  same_code :
      (c k : ℕ) (rest text : List ℕ)
      → (c == k) ≡ true
      → Unescapes k rest text
      → Unescapes c rest text
  same_code c k rest text e h = let same : c ≡ k = (==_iff c k).0 e in rw same h

  unescape-escape_rune :
      (m : Names) (c : ℕ) (rest : List ℕ)
      → IsNames m
      → is_plain is_print c ≡ true
      → Unescapes c rest (escape_rune to_upper is_print hex m c)
  unfolding escape_rune letter_code
  unescape-escape_rune m c rest n p =
      let named = λ (k x : ℕ) (e : (c == k) ≡ true) (l : letter_code x ≡ k) (b : 1 ≤ k).
        same_code c k rest (b'\\' ∷ x ∷ []) e (unescape-letter k x rest l b) in
      branch _ (Unescapes c rest) _ _ (λ e. named 7 b'a' e refl (omega arith))
        λ h.
          branch _ (Unescapes c rest) _ _ (λ e. named 8 b'b' e refl (omega arith))
            λ h.
              branch _ (Unescapes c rest) _ _
                (λ e. same_code c delete_code rest m.delete e (n.delete rest))
                λ d.
                  branch _ (Unescapes c rest) _ _ (λ e. named 27 b'e' e refl (omega arith))
                    λ h.
                      branch _ (Unescapes c rest) _ _ (λ e. named 12 b'f' e refl (omega arith))
                        λ h.
                          branch _ (Unescapes c rest) _ _ (λ e. named 10 b'n' e refl (omega arith))
                            λ h.
                              branch _ (Unescapes c rest) _ _
                                (λ e. same_code c return_code rest m.return e (n.return rest))
                                λ h.
                                  branch _ (Unescapes c rest) _ _
                                    (λ e. named 9 b't' e refl (omega arith))
                                    λ h.
                                      branch _ (Unescapes c rest) _ _
                                        (λ e. named 11 b'v' e refl (omega arith))
                                        λ h.
                                          branch _ (Unescapes c rest) _ _
                                            (λ (e : is_quoting c ≡ true).
                                              unescape-letter c c rest (quoting c e).0
                                                (quoting c e).1)
                                            (λ (q : is_quoting c ≡ false).
                                              unescape-default c rest p (named_ne c 127 d)
                                                (not_quoting c q))

  unescape-nil : unescape_loop to_upper 0 [] ≡ []
  unfolding unescape_loop
  unescape-nil = refl

  unescape_loop-escape_with :
      (m : Names) (s : List ℕ)
      → IsNames m
      → AllPlain is_print s
      → unescape_loop to_upper 0 (escape_with to_upper is_print hex m s) ≡ s
  unfolding escape_with AllPlain
  unescape_loop-escape_with m [] n p = unescape-nil
  unescape_loop-escape_with m (c ∷ s) n p =
      (unescape-escape_rune m c (escape_with to_upper is_print hex m s) n p.0).0
      ∙ ap (c ∷◌) (unescape_loop-escape_with m s n p.1)

  not_backslash :
      (m : Names) (s : List ℕ)
      → IsNames m
      → AllPlain is_print s
      → escape_with to_upper is_print hex m s ≢ b'\\' ∷ []
  unfolding escape_with AllPlain
  not_backslash m [] n p = λ e. cc
  not_backslash m (c ∷ s) n p =
      (unescape-escape_rune m c (escape_with to_upper is_print hex m s) n p.0).1

  unescape-escape_with :
      (m : Names) (s : List ℕ)
      → IsNames m
      → AllPlain is_print s
      → unescape to_upper (escape_with to_upper is_print hex m s) ≡ s
  unfolding AllPlain
  unescape-escape_with m s n p =
      unescape-single to_upper (escape_with to_upper is_print hex m s) (not_backslash m s n p)
      ∙ unescape_loop-escape_with m s n p

  -- A text of runes that come back is given back by `Unescape`, whether it was escaped by `Escape` or by
  -- `EscapeMacro`: runes of control codes but 28, of ASCII, of the meta codes whose rest prints and is no
  -- backslash, and above 255 if they print.
  pub unescape-escape :
      (s : List ℕ)
      → AllPlain is_print s
      → (unescape to_upper (escape to_upper is_print hex s) ≡ s)
        × (unescape to_upper (escape_macro to_upper is_print hex s) ≡ s)
  unfolding escape escape_macro
  unescape-escape s p = (
    unescape-escape_with escape_names s escape_names-IsNames p,
    unescape-escape_with macro_names s macro_names-IsNames p,
  )

-- Of `\xHH` the second digit is read again, as a rune of its own.
unescape-hex :
    (to_upper : ℕ → ℕ) (high low : ℕ) (rest : List ℕ)
    → hex_digit high ≡ true
    → hex_digit low ≡ true
    → unescape to_upper (b'\\' ∷ b'x' ∷ high ∷ low ∷ rest)
      ≡ bit_or (hex_val high * 16) (hex_val low) ∷ low ∷ unescape_loop to_upper 0 rest
unfolding unescape_loop unescape_step
unescape-hex to_upper high low rest h l =
    unescape-single to_upper (b'\\' ∷ b'x' ∷ high ∷ low ∷ rest) (λ e. cc) ∙ hex_loop
  where
    hex_loop :
        unescape_loop to_upper 0 (b'\\' ∷ b'x' ∷ high ∷ low ∷ rest)
        ≡ bit_or (hex_val high * 16) (hex_val low) ∷ low ∷ unescape_loop to_upper 0 rest
    hex_loop = ground arith
