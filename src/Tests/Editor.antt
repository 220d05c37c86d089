-- ===== src/Tests/Editor.antt =====
-- The theorems about internal/editor at concrete inputs, and runs of the model.
use readline.Base.{
  ℕ, ◌+◌, ◌≡◌, refl, Bool, true, false, ◌&&◌, ◌||◌, some, [], ◌∷◌, leb, if◌then◌else◌, arith, take,
}
use readline.Editor.Buffers.{
  Buffers, Runes, new_buffers, write, pop, get_kill, reset, set_active, get, content_at, put, atoi,
  write_to, write_alpha, alpha_loop, active_content,
}
use readline.Editor.Buffers.Ring.{IsRing, pop-IsRing, write-IsRing, write_digit}

abbrev letter : ℕ → Bool
letter r = (leb b'a' r && leb r b'z') || (leb b'A' r && leb r b'Z')

abbrev lower : ℕ → ℕ
lower r = if leb b'A' r && leb r b'Z' then r + 32 else r

abbrev one : Runes
one = b'o' ∷ b'n' ∷ b'e' ∷ []

abbrev two : Runes
two = b't' ∷ b'w' ∷ b'o' ∷ []

new_buffers-IsRing : IsRing new_buffers []
unfolding new_buffers
new_buffers-IsRing = record { stack = record { at = λ j. refl; count = refl }; bound = omega arith }

abbrev stored : Buffers
stored = write letter lower new_buffers one

not_selected : (new_buffers.selected ≡ false) × (stored.selected ≡ false)
unfolding new_buffers write reset
not_selected = (refl, refl)

stored-IsRing : IsRing stored (one ∷ [])
stored-IsRing =
    (write-IsRing letter lower new_buffers [] b'o' (b'n' ∷ b'e' ∷ []) new_buffers-IsRing
      not_selected.0).0

write-IsRing_example :
    IsRing (write letter lower stored two) (take 10 (two ∷ one ∷ []))
    × (get_kill (write letter lower stored two) ≡ two)
write-IsRing_example =
    write-IsRing letter lower stored (one ∷ []) b't' (b'w' ∷ b'o' ∷ []) stored-IsRing not_selected.1

pop-IsRing_example : (b : Buffers) × (pop stored ≡ some (b, one)) × IsRing b []
pop-IsRing_example = pop-IsRing stored [] one stored-IsRing

abbrev third : Buffers
third = record new_buffers { active = b'3'; selected = true }

write_digit_example : write letter lower third two ≡ reset third
write_digit_example = write_digit letter lower third two refl (omega arith) (omega arith) refl

-- A text that is written to `a`, and then one to `A`, stand in `a` together.
appended_run :
    get
      (write letter lower
        (set_active (write letter lower (set_active new_buffers b'a') one) b'A')
        two)
      b'a'
    ≡ b'o' ∷ b'n' ∷ b'e' ∷ b't' ∷ b'w' ∷ b'o' ∷ []
unfolding get write set_active new_buffers write_to write_alpha alpha_loop atoi put reset content_at
appended_run = refl

active_content_run :
    (active_content (set_active (write letter lower (set_active new_buffers b'a') one) b'a')).1
    ≡ one
unfolding active_content get write set_active new_buffers write_to write_alpha alpha_loop atoi put
    reset content_at
active_content_run = refl
