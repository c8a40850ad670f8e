-- ===== src/Base/Text/Splits.antt =====
-- Splitting a text that was put together.
use Prim.Native.Nat.{ℕ}
use mathlib.Core.Path.{◌≡◌, refl, ap}
use mathlib.Core.Bool.{Bool, true, false}
use mathlib.Core.List.{[], ◌∷◌, ◌++◌}
use mathlib.Core.Option.{some, none}
use native.Mathlib.Omega.{arith}
use vscreen.Base.Tests.{◌==◌, nat_eq, nat_beq_iff}
use vscreen.Base.Lists.{any}
use vscreen.Base.Text.{
  Text, split_parts, split, split_once, starts_with, contains, strip_prefix, find_text,
}

-- Whether a byte is in a text.
abbrev pub has : ℕ → Text → Bool
has d s = any (λ c. c == d) s

pub split_parts-append :
    (d : ℕ) (x y : Text) → has d x ≡ false → split_parts d (x ++ d ∷ y) ≡ (x, split d y)
unfolding split_parts split
split_parts-append d [] y h = ground (arith, nat_beq_iff d d)
split_parts-append d (c ∷ x) y h = ground (arith, split_parts-append d x y)

pub split_parts-whole : (d : ℕ) (x : Text) → has d x ≡ false → split_parts d x ≡ (x, [])
unfolding split_parts
split_parts-whole d [] h = refl
split_parts-whole d (c ∷ x) h = ground (arith, split_parts-whole d x)

pub split-append : (d : ℕ) (x y : Text) → has d x ≡ false → split d (x ++ d ∷ y) ≡ x ∷ split d y
unfolding split
split-append d x y h = ap (λ p. p.0 ∷ p.1) (split_parts-append d x y h)

pub split-whole : (d : ℕ) (x : Text) → has d x ≡ false → split d x ≡ x ∷ []
unfolding split
split-whole d x h = ap (λ p. p.0 ∷ p.1) (split_parts-whole d x h)

pub split_once-append :
    (d : ℕ) (x y : Text) → has d x ≡ false → split_once d (x ++ d ∷ y) ≡ some (x, y)
unfolding split_once
split_once-append d [] y h = ground (arith, nat_beq_iff d d)
split_once-append d (c ∷ x) y h = ground (arith, split_once-append d x y)

starts_with-has :
    (d : ℕ) (pat s : Text) → has d pat ≡ true → starts_with pat s ≡ true → has d s ≡ true
unfolding starts_with
starts_with-has d [] s h p = ground arith
starts_with-has d (q ∷ pat) [] h p = ground arith
starts_with-has d (q ∷ pat) (c ∷ s) h p = ground (arith, starts_with-has d pat s)

-- A pattern with a byte that the text lacks is not found.
pub contains_lacks :
    (d : ℕ) (pat s : Text) → has d pat ≡ true → has d s ≡ false → contains pat s ≡ false
unfolding contains
contains_lacks d [] [] h k = ground arith
contains_lacks d (q ∷ pat) [] h k = refl
contains_lacks d pat (c ∷ s) h k =
    ground (arith, starts_with-has d pat (c ∷ s), contains_lacks d pat s)

strip_prefix_lacks :
    (d : ℕ) (pat s : Text) → has d pat ≡ true → has d s ≡ false → strip_prefix pat s ≡ none
unfolding strip_prefix
strip_prefix_lacks d [] s h k = ground arith
strip_prefix_lacks d (q ∷ pat) [] h k = refl
strip_prefix_lacks d (q ∷ pat) (c ∷ s) h k = ground (arith, strip_prefix_lacks d pat s)

pub find_text_lacks :
    (d : ℕ) (pat s : Text) → has d pat ≡ true → has d s ≡ false → find_text pat s ≡ none
unfolding find_text
find_text_lacks d pat [] h k = ground (arith, strip_prefix_lacks d pat [])
find_text_lacks d pat (c ∷ s) h k =
    ground (arith, strip_prefix_lacks d pat (c ∷ s), find_text_lacks d pat s)
