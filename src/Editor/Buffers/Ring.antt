-- ===== src/Editor/Buffers/Ring.antt =====
-- The numbered registers as a kill ring: `Pop` and `Write` (internal/editor/buffers.go).
use readline.Base.{
  ℕ, zero, suc, ◌+◌, ◌-◌, ◌≤◌, ◌<◌, ◌≡◌, refl, sym, ap, ◌∙◌, Bool, true, false, none, some, List,
  ◌∷◌, ◌==◌, ltb, if◌then◌else◌, length, take, get_elem?, arith, get_elem?_lt, get_elem?_ge,
  length-take, dec_lt,
}
use readline.Editor.Buffers.{
  Runes, Registers, content_at, put, delete, Buffers, reset, get_kill, pop_loop, pop, shift,
  write_num, write, write_to, atoi,
}
use readline.Editor.Buffers.Push.{IsStack, content_at-some, put_count, put_at, push-IsStack}

-- The contents in front of `i` have moved down by one, and register `i` is free.
record IsGap (m : Registers) (ws : List Runes) (i : ℕ) : Type 0 where
  moved : (j : ℕ) → j < i → m.at j ≡ get_elem? ws j
  free : m.at i ≡ none
  kept : (j : ℕ) → i < j → m.at j ≡ get_elem? ws (j - 1)
  count : m.count ≡ length ws

delete_at : (m : Registers) (k j : ℕ) → (delete m k).at j ≡ (if j == k then none else m.at j)
unfolding delete
delete_at m k j = refl

delete_count :
    (m : Registers) (k : ℕ) (w : Runes) → m.at k ≡ some w → (delete m k).count ≡ m.count - 1
unfolding delete
delete_count m k w h = rw h refl

pop_loop_step :
    (m : Registers) (ws : List Runes) (i : ℕ)
    → i < length ws
    → IsGap m ws i
    → IsGap (delete (put m i (content_at m (i + 1))) (i + 1)) ws (i + 1)
pop_loop_step m ws i h s =
    let (w, e) = get_elem?_lt ws i h in
    let m' = put m i (content_at m (i + 1)) in
    let one : i + 1 - 1 ≡ i = omega arith in
    let next : m.at (i + 1) ≡ some w = s.kept (i + 1) (omega arith) ∙ ap (get_elem? ws) one ∙ e in
    let here = content_at-some m (i + 1) w next in
    let next' : m'.at (i + 1) ≡ some w =
      ground (arith, put_at m i (i + 1) (content_at m (i + 1)), next) in
    record {
      moved = λ j b. elim (dec_lt j i) [
        | yes k ↦
            ground (arith, delete_at m' (i + 1) j, put_at m i j (content_at m (i + 1)), s.moved j k)
        | no k ↦
            let same : j ≡ i = omega arith in
            rw same
              (ground (arith, delete_at m' (i + 1) i, put_at m i i (content_at m (i + 1)), here, e))
      ];
      free = ground (arith, delete_at m' (i + 1) (i + 1));
      kept = λ j b. ground (
        arith,
        delete_at m' (i + 1) j,
        put_at m i j (content_at m (i + 1)),
        s.kept j (omega arith),
      );
      count = omega (
        arith,
        delete_count m' (i + 1) w next',
        (put_count m i (content_at m (i + 1))).0 s.free,
        s.count,
      );
    }

past :
    (m : Registers) (ws : List Runes) (i j : ℕ)
    → IsGap m ws i
    → length ws ≤ i
    → i ≤ j
    → m.at j ≡ get_elem? ws j
past m ws i j s h k = elim (dec_lt i j) [
  | yes b ↦
      s.kept j b ∙ get_elem?_ge ws (j - 1) (omega arith) ∙ sym (get_elem?_ge ws j (omega arith))
  | no b ↦ let same : j ≡ i = omega arith in rw same (s.free ∙ sym (get_elem?_ge ws i h))
]

pop_loop-IsStack :
    (turns : ℕ) (m : Registers) (ws : List Runes) (i : ℕ)
    → IsGap m ws i
    → i ≤ length ws
    → length ws < i + turns
    → (m' : Registers) × (pop_loop m i turns ≡ some m') × IsStack m' ws
unfolding pop_loop
pop_loop-IsStack zero m ws i s h k = absurd (omega arith)
pop_loop-IsStack (suc turns) m ws i s h k = elim (dec_lt i (length ws)) [
  | yes b ↦
      let e : ltb i m.count ≡ true = ground (arith, s.count) in
      let (m', f, t) =
        pop_loop-IsStack turns (delete (put m i (content_at m (i + 1))) (i + 1)) ws (i + 1)
          (pop_loop_step m ws i b s) (omega arith) (omega arith) in
      (m', rw (pop_loop, e) f, t)
  | no b ↦
      let e : ltb i m.count ≡ false = ground (arith, s.count) in
      (
        m,
        rw (pop_loop, e) refl,
        record {
          at = λ j. elim (dec_lt j i) [
            | yes c ↦ s.moved j c
            | no c ↦ past m ws i j s (omega arith) (omega arith)
          ];
          count = s.count;
        },
      )
]

-- The numbered registers hold the contents `ws`, the newest first, and there are at most ten.
pub record IsRing (b : Buffers) (ws : List Runes) : Type 0 where
  pub stack : IsStack b.num ws
  pub bound : length ws ≤ 10

delete-IsGap :
    (m : Registers) (ws : List Runes) (w : Runes) → IsStack m (w ∷ ws) → IsGap (delete m 0) ws 0
delete-IsGap m ws w s = record {
  moved = λ j b. absurd (omega arith);
  free = ground (arith, delete_at m 0 0);
  kept = kept;
  count = omega (arith, delete_count m 0 w (s.at 0), s.count);
}
  where
    kept : (j : ℕ) → 0 < j → (delete m 0).at j ≡ get_elem? ws (j - 1)
    kept zero b = absurd (omega arith)
    kept (suc j) b =
        let one : suc j - 1 ≡ j = omega arith in
        let e = s.at (suc j) in rw one (ground (arith, delete_at m 0 (suc j), e))

-- `Pop` always returns. It takes the newest of the numbered contents away and gives it back.
pub pop-IsRing :
    (b : Buffers) (ws : List Runes) (w : Runes)
    → IsRing b (w ∷ ws)
    → (b' : Buffers) × (pop b ≡ some (b', w)) × IsRing b' ws
unfolding pop
pop-IsRing b ws w r =
    let (m, e, s) =
      pop_loop-IsStack (b.num.count + 1) (delete b.num 0) ws 0 (delete-IsGap b.num ws w r.stack)
        (omega arith) (omega (arith, r.stack.count)) in
    let some_left : (b.num.count == 0) ≡ false = ground (arith, r.stack.count) in
    (
      record b { num = m },
      rw (pop, some_left, e, content_at-some b.num 0 w (r.stack.at 0)) refl,
      record { stack = s; bound = let h = r.bound in omega arith },
    )

module _ (is_letter : ℕ → Bool) (to_lower : ℕ → ℕ) where
  -- Without a selected register, a write of some text puts it in front of the numbered contents, of
  -- which an eleventh is dropped, and the kill buffer gives that text.
  pub write-IsRing :
      (b : Buffers) (ws : List Runes) (r : ℕ) (content : Runes)
      → IsRing b ws
      → b.selected ≡ false
      → IsRing (write is_letter to_lower b (r ∷ content)) (take 10 ((r ∷ content) ∷ ws))
        × (get_kill (write is_letter to_lower b (r ∷ content)) ≡ r ∷ content)
  unfolding write write_num reset get_kill
  write-IsRing b ws r content s h =
      let t =
        push-IsStack b.num ws (r ∷ content) b.num.count s.stack s.stack.count
          (let k = s.bound in omega (arith, s.stack.count)) in
      let left : ((put (shift b.num b.num.count) 0 (r ∷ content)).count == 0) ≡ false =
        ground (arith, t.count) in
      rw h (
        record { stack = t; bound = omega (arith, length-take 9 ws) },
        rw
            (
              left,
              content_at-some (put (shift b.num b.num.count) 0 (r ∷ content)) 0 (r ∷ content)
                  (t.at 0),
            )
            refl,
      )

  -- A write to a selected register 1 to 9, with no letter among the digits, leaves all contents as they
  -- are: the text is lost.
  pub write_digit :
      (b : Buffers) (content : Runes)
      → b.selected ≡ true
      → b'1' ≤ b.active
      → b.active ≤ b'9'
      → is_letter b.active ≡ false
      → write is_letter to_lower b content ≡ reset b
  unfolding write write_to atoi reset
  write_digit b content h lo hi l = ground arith
