-- ===== src/Base/Text/Numbers.antt =====
-- Numbers in text.
use Prim.Native.Nat.{ℕ, zero, suc, ◌+◌, ◌-◌, ◌*◌, ◌/◌, ◌%◌, ◌≤◌, ◌<◌}
use mathlib.Core.Path.{ap, ◌≡◌, refl, ◌∙◌}
use mathlib.Core.Bool.{Bool, true, false, ◌&&◌}
use mathlib.Core.List.{[], ◌∷◌, ◌++◌}
use mathlib.Core.Option.{Option, none, some}
use mathlib.Core.Logic.{inl, inr}
use native.Mathlib.Omega.{arith}
use vscreen.Base.Tests.{if◌then◌else◌, leb, ltb, nat_eq, nat_beq_iff, Bool-cases}
use vscreen.Base.Lists.{all, is_empty}
use vscreen.Base.Text.{Text, scan_digits, parse_number, show_on, show, to_lowercase}
use vscreen.Base.Text.Splits.{has}

abbrev pub is_digit : ℕ → Bool
is_digit c = leb b'0' c && leb c b'9'

-- One digit more at the end.
abbrev after_digit : ℕ → ℕ → Option ℕ → Option ℕ
after_digit max c none = none
after_digit max c (some n) =
    if leb b'0' c && leb c b'9' && leb (n * 10 + (c - b'0')) max
    then some (n * 10 + (c - b'0'))
    else none

scan_digits-snoc :
    (max : ℕ) (s : Text) (c n : ℕ)
    → scan_digits max (s ++ c ∷ []) n ≡ after_digit max c (scan_digits max s n)
unfolding scan_digits
scan_digits-snoc max [] c n = refl
scan_digits-snoc max (d ∷ s) c n = ground (arith, scan_digits-snoc max s c (n * 10 + (d - b'0')))

show_on_small : (fuel n : ℕ) → ltb n 10 ≡ true → show_on (suc fuel) n ≡ (b'0' + n) ∷ []
unfolding show_on
show_on_small fuel n h = ground (arith, h)

show_on_large :
    (fuel n : ℕ)
    → ltb n 10 ≡ false
    → show_on (suc fuel) n ≡ show_on fuel (n / 10) ++ (b'0' + n % 10) ∷ []
unfolding show_on
show_on_large fuel n h = ground (arith, h)

scan_digits-show_on :
    (max fuel n : ℕ) → n < fuel → n ≤ max → scan_digits max (show_on fuel n) 0 ≡ some n
scan_digits-show_on max zero n h le = absurd (omega arith)
scan_digits-show_on max (suc fuel) n h le = elim (Bool-cases (ltb n 10)) [
  | inl small ↦ rw (show_on_small fuel n small) (unfold scan_digits in ground arith)
  | inr large ↦
      ap (λ s. scan_digits max s 0) (show_on_large fuel n large)
      ∙ scan_digits-snoc max (show_on fuel (n / 10)) (b'0' + n % 10) 0
      ∙ ap (after_digit max (b'0' + n % 10))
          (scan_digits-show_on max fuel (n / 10) (ground arith) (ground arith))
      ∙ ground arith
]

all-snoc : (p : ℕ → Bool) (s : Text) (c : ℕ) → all p (s ++ c ∷ []) ≡ (all p s && p c)
all-snoc p [] c = ground arith
all-snoc p (x ∷ s) c = ground (arith, all-snoc p s c)

all_digits-show_on : (fuel n : ℕ) → all is_digit (show_on fuel n) ≡ true
all_digits-show_on zero n = unfold show_on in refl
all_digits-show_on (suc fuel) n = elim (Bool-cases (ltb n 10)) [
  | inl small ↦ rw (show_on_small fuel n small) (ground arith)
  | inr large ↦
      rw (show_on_large fuel n large, all-snoc is_digit (show_on fuel (n / 10)) (b'0' + n % 10))
        (ground (arith, all_digits-show_on fuel (n / 10)))
]

is_empty-snoc : (s : Text) (c : ℕ) → is_empty (s ++ c ∷ []) ≡ false
is_empty-snoc [] c = refl
is_empty-snoc (x ∷ s) c = refl

pub is_empty-show : (n : ℕ) → is_empty (show n) ≡ false
unfolding show
is_empty-show n = elim (Bool-cases (ltb n 10)) [
  | inl small ↦ rw (show_on_small n n small) refl
  | inr large ↦ rw (show_on_large n n large) (is_empty-snoc (show_on n (n / 10)) (b'0' + n % 10))
]

parse_number-digits :
    (max : ℕ) (s : Text)
    → all is_digit s ≡ true
    → is_empty s ≡ false
    → parse_number max s ≡ scan_digits max s 0
unfolding parse_number
parse_number-digits max [] h e = ground arith
parse_number-digits max (c ∷ []) h e = refl
parse_number-digits max (c ∷ d ∷ s) h e = ground (arith)

-- The print of a number is made of digits.
pub show-digits : (n : ℕ) → all is_digit (show n) ≡ true
unfolding show
show-digits n = all_digits-show_on (suc n) n

-- A number is read back from its print, if it fits.
pub parse_number-show : (max n : ℕ) → n ≤ max → parse_number max (show n) ≡ some n
parse_number-show max n le =
    parse_number-digits max (show n) (show-digits n) (is_empty-show n)
    ∙ (unfold show in scan_digits-show_on max (suc n) n (omega arith) le)

-- A byte that is no digit is not in the print of a number.
pub has-digits : (d : ℕ) (s : Text) → is_digit d ≡ false → all is_digit s ≡ true → has d s ≡ false
has-digits d [] h k = refl
has-digits d (c ∷ s) h k = ground (arith, has-digits d s, nat_beq_iff c d)

pub has-show : (d n : ℕ) → is_digit d ≡ false → has d (show n) ≡ false
has-show d n h = has-digits d (show n) h (show-digits n)

-- Digits have no upper case.
pub to_lowercase-digits : (s : Text) → all is_digit s ≡ true → to_lowercase s ≡ s
to_lowercase-digits [] h = refl
to_lowercase-digits (c ∷ s) h = ground (arith, to_lowercase-digits s)
