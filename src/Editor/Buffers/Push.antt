-- ===== src/Editor/Buffers/Push.antt =====
-- The loop of `writeNum` (internal/editor/buffers.go).
use readline.Base.{
  ℕ, zero, suc, ◌+◌, ◌-◌, ◌≤◌, ◌<◌, ◌≡◌, refl, sym, ap, ◌∙◌, false, none, some, List, [], ◌∷◌, ◌==◌,
  leb, if◌then◌else◌, length, take, get_elem?, arith, get_elem?_lt, get_elem?_ge, take_all,
  length-take, dec_lt, ◌⊎◌, inl, inr,
}
use readline.Editor.Buffers.{Runes, Registers, content_at, put, shift}

-- The registers from 0 on hold the contents `ws`, and there are no others.
pub record IsStack (m : Registers) (ws : List Runes) : Type 0 where
  pub at : (j : ℕ) → m.at j ≡ get_elem? ws j
  pub count : m.count ≡ length ws

-- The contents up to `i` are in their old places, and the others have moved up by one.
record IsMoved (m : Registers) (ws : List Runes) (i : ℕ) : Type 0 where
  kept : (j : ℕ) → j ≤ i → m.at j ≡ get_elem? ws j
  moved : (j : ℕ) → i < j → m.at j ≡ get_elem? ws (j - 1)
  count : m.count ≡ (if leb (length ws) i then length ws else suc (length ws))

pub get_elem?_cases :
    (ws : List Runes) (i : ℕ)
    → ((length ws ≤ i) × (get_elem? ws i ≡ none))
      ⊎ ((i < length ws) × ((w : Runes) × (get_elem? ws i ≡ some w)))
get_elem?_cases ws i = elim (dec_lt i (length ws)) [
  | yes h ↦ inr (h, get_elem?_lt ws i h)
  | no h ↦ inl (omega arith, get_elem?_ge ws i (omega arith))
]

pub content_at-some : (m : Registers) (i : ℕ) (w : Runes) → m.at i ≡ some w → content_at m i ≡ w
unfolding content_at
content_at-some m i w h = rw (content_at, h) refl

pub put_count :
    (m : Registers) (k : ℕ) (buf : Runes)
    → ((m.at k ≡ none) → (put m k buf).count ≡ m.count + 1)
      × ((w : Runes) → m.at k ≡ some w → (put m k buf).count ≡ m.count)
unfolding put
put_count m k buf = (λ h. rw h refl, λ w h. rw h refl)

pub put_at :
    (m : Registers) (k j : ℕ) (buf : Runes)
    → (put m k buf).at j ≡ (if j == k then some buf else m.at j)
unfolding put
put_at m k j buf = refl

put-move :
    (m : Registers) (ws : List Runes) (i : ℕ)
    → i < length ws
    → IsMoved m ws (suc i)
    → IsMoved (put m (suc i) (content_at m i)) ws i
put-move m ws i h s =
    let (w, e) = get_elem?_lt ws i h in
    let here = content_at-some m i w (s.kept i (omega arith) ∙ e) in
    let above = s.kept (suc i) (omega arith) in
    record {
      kept = λ j b. ground (arith, put_at m (suc i) j (content_at m i), s.kept j (omega arith));
      moved = λ j b. elim (dec_lt (suc i) j) [
        | yes k ↦ ground (arith, put_at m (suc i) j (content_at m i), s.moved j k)
        | no k ↦
            let same : j ≡ suc i = omega arith in
            let one : suc i - 1 ≡ i = omega arith in
            rw (same, one) (ground (arith, put_at m (suc i) (suc i) (content_at m i), here, e))
      ];
      count = elim (get_elem?_cases ws (suc i)) [
        | inl (b, n) ↦ ground (arith, (put_count m (suc i) (content_at m i)).0 (above ∙ n), s.count)
        | inr (b, (v, n)) ↦
            ground (arith, (put_count m (suc i) (content_at m i)).1 v (above ∙ n), s.count)
      ];
    }

shift-IsMoved :
    (m : Registers) (ws : List Runes) (i : ℕ)
    → i ≤ length ws
    → i < 10
    → IsMoved m ws i
    → IsMoved (shift m i) ws 0
unfolding shift
shift-IsMoved m ws zero h k s = s
shift-IsMoved m ws (suc zero) h k s = put-move m ws 0 (omega arith) s
shift-IsMoved m ws (suc (suc i)) h k s =
    let e : (suc (suc i) == 10) ≡ false = ground arith in
    rw e (
      shift-IsMoved (put m (suc (suc i)) (content_at m (suc i))) ws (suc i) (omega arith)
        (omega arith) (put-move m ws (suc i) (omega arith) s))

IsStack-IsMoved : (m : Registers) (ws : List Runes) → IsStack m ws → IsMoved m ws (length ws)
IsStack-IsMoved m ws s = record {
  kept = λ j b. s.at j;
  moved =
      λ j b. s.at j ∙ get_elem?_ge ws j (omega arith) ∙ sym (get_elem?_ge ws (j - 1) (omega arith));
  count = ground (arith, s.count);
}

get_elem?-take :
    (n : ℕ) (ws : List Runes) (j : ℕ) → j < n → get_elem? (take n ws) j ≡ get_elem? ws j
get_elem?-take zero ws j h = absurd (omega arith)
get_elem?-take (suc n) [] j h = refl
get_elem?-take (suc n) (w ∷ ws) zero h = refl
get_elem?-take (suc n) (w ∷ ws) (suc j) h = get_elem?-take n ws j (omega arith)

-- With all ten in use, the last one is overwritten.
full-IsMoved :
    (m : Registers) (ws : List Runes)
    → length ws ≡ 10
    → IsStack m ws
    → IsMoved (put m 9 (content_at m 8)) (take 9 ws) 8
full-IsMoved m ws h s =
    let (w, e) = get_elem?_lt ws 8 (omega arith) in
    let (v, f) = get_elem?_lt ws 9 (omega arith) in
    let here = content_at-some m 8 w (s.at 8 ∙ e) in
    let nine : length (take 9 ws) ≡ 9 = omega (arith, length-take 9 ws) in
    record {
      kept = λ j b.
          ground
            (arith, put_at m 9 j (content_at m 8), s.at j, get_elem?-take 9 ws j (omega arith));
      moved = λ j b. elim (dec_lt 9 j) [
        | yes k ↦ ground (
          arith,
          put_at m 9 j (content_at m 8),
          s.at j,
          get_elem?_ge ws j (omega arith),
          get_elem?_ge (take 9 ws) (j - 1) (omega arith),
        )
        | no k ↦
            let same : j ≡ 9 = omega arith in
            rw same (
              ground (
                arith,
                put_at m 9 9 (content_at m 8),
                here,
                e,
                get_elem?-take 9 ws 8 (omega arith),
              ))
      ];
      count = ground (arith, (put_count m 9 (content_at m 8)).1 v (s.at 9 ∙ f), s.count, nine);
    }

put-IsStack :
    (m : Registers) (ws : List Runes) (w : Runes) → IsMoved m ws 0 → IsStack (put m 0 w) (w ∷ ws)
put-IsStack m ws w s = record {
  at = put_zero_at;
  count = elim (get_elem?_cases ws 0) [
    | inl (b, n) ↦ ground (arith, (put_count m 0 w).0 (s.kept 0 (omega arith) ∙ n), s.count)
    | inr (b, (v, n)) ↦ ground (arith, (put_count m 0 w).1 v (s.kept 0 (omega arith) ∙ n), s.count)
  ];
}
  where
    put_zero_at : (j : ℕ) → (put m 0 w).at j ≡ get_elem? (w ∷ ws) j
    put_zero_at zero = put_at m 0 0 w
    put_zero_at (suc j) =
        let one : suc j - 1 ≡ j = omega arith in
        let above : m.at (suc j) ≡ get_elem? ws j =
          s.moved (suc j) (omega arith) ∙ ap (get_elem? ws) one in
        ground (arith, put_at m 0 (suc j) w, above)

shift_ten : (m : Registers) → shift m 10 ≡ shift (put m 9 (content_at m 8)) 8
unfolding shift
shift_ten m = refl

pub push-IsStack :
    (m : Registers) (ws : List Runes) (w : Runes) (n : ℕ)
    → IsStack m ws
    → n ≡ length ws
    → n ≤ 10
    → IsStack (put (shift m n) 0 w) (take 10 (w ∷ ws))
push-IsStack m ws w n s e h = elim (dec_lt n 10) [
  | yes k ↦
      rw (e, take_all 9 ws (omega arith))
        (put-IsStack (shift m (length ws)) ws w
          (shift-IsMoved m ws (length ws) (omega arith) (omega arith) (IsStack-IsMoved m ws s)))
  | no k ↦
      let ten : n ≡ 10 = omega arith in
      let nine : length (take 9 ws) ≡ 9 = omega (arith, length-take 9 ws) in
      rw (ten, shift_ten m)
        (put-IsStack (shift (put m 9 (content_at m 8)) 8) (take 9 ws) w (
          shift-IsMoved (put m 9 (content_at m 8)) (take 9 ws) 8 (omega arith) (omega arith)
            (full-IsMoved m ws (omega arith) s)))
]
