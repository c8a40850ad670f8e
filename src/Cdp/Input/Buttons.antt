-- ===== src/Cdp/Input/Buttons.antt =====
-- The buttons that a press says are held, and those that a move says are held.
use vscreen.Base.{
  Option, ap, arith, if◌then◌else◌, nat_eq, none, refl, some, sym, true, ℕ, ◌%◌, ◌==◌, ◌^◌, ◌↔◌,
  ◌∙◌, ◌≡◌, string_eq,
}
use vscreen.Base.Bytes.{all_below, all_below_sound}
use vscreen.Cdp.Input.{
  ButtonName, back, button_name, forward, held_button, left, middle, no_button, pressed_buttons,
  right,
}

abbrev code_of : Option ButtonName → ℕ
code_of none = 0
code_of (some left) = 1
code_of (some right) = 2
code_of (some middle) = 3
code_of (some back) = 4
code_of (some forward) = 5
code_of (some no_button) = 6

-- What a move says of the mask of a press, by the shift.
abbrev shifted : ℕ → ℕ
shifted r = if r == 0 then 1 else if r == 1 then 2 else if r == 2 then 3 else 0

shifted_all : all_below 32 (λ r. code_of (held_button (2 ^ r)) == shifted r) ≡ true
unfolding all_below held_button
shifted_all = refl

shifted_lem : (b : ℕ) → code_of (held_button (pressed_buttons b)) ≡ shifted (b % 32)
unfolding pressed_buttons
shifted_lem b = (nat_eq.beq_iff _ _).0 (
    all_below_sound 32 (λ r. code_of (held_button (2 ^ r)) == shifted r) (b % 32) shifted_all
      (omega arith))

button_code : (b : ℕ) → shifted (b % 32) ≡ code_of (some (button_name b)) → b ≡ 0
unfolding button_name
button_code b h = ground arith

-- The mask of the buttons that the request for a press carries names, to the program itself, the
-- button that the request names only if that is the left one: read as a move's mask is read, it
-- names another button, or none, for every other number of a button.
pressed_buttons-left : (b : ℕ) → (held_button (pressed_buttons b) ≡ some (button_name b)) ↔ (b ≡ 0)
pressed_buttons-left b = (
  λ h. button_code b (sym (shifted_lem b) ∙ ap code_of h),
  λ h. rw h (unfold held_button pressed_buttons button_name in refl),
)
