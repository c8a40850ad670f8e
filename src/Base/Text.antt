-- ===== src/Base/Text.antt =====
-- Text that the program walks: a `str` is the list of its bytes. The tests on letters, digits and
-- white space are those of ASCII.
pub mod Splits
pub mod Numbers
pub mod Prefixes
use Prim.Native.Char.{code}
use Prim.Native.Nat.{ℕ, zero, suc, ◌+◌, ◌-◌, ◌*◌, ◌/◌, ◌%◌}
use Prim.Native.String.{String}
use mathlib.Core.Path.{◌≡◌, refl}
use mathlib.Core.Logic.{◌↔◌}
use mathlib.Core.Bool.{Bool, true, false, ◌&&◌, ◌||◌}
use mathlib.Core.List.{List, [], ◌∷◌, ◌++◌, map}
use mathlib.Core.Option
use mathlib.Core.Option.{Option, none, some}
use native.Mathlib.Omega.{arith}
use vscreen.Base.Tests.{Eq, ◌==◌, if◌then◌else◌, leb, ltb, nat_beq, nat_beq_iff, nat_eq}
use vscreen.Base.Lists.{is_empty}

abbrev pub Text : Type 0
Text = List ℕ

-- A literal.
abbrev pub codes : String → Text
codes String.[] = []
codes (String.◌∷◌ c s) = code c ∷ codes s

abbrev pub text_beq : Text → Text → Bool
text_beq [] [] = true
text_beq [] (y ∷ t) = false
text_beq (x ∷ s) [] = false
text_beq (x ∷ s) (y ∷ t) = nat_beq x y && text_beq s t

pub text_beq_iff : (s t : Text) → (text_beq s t ≡ true) ↔ (s ≡ t)
text_beq_iff [] [] = ground arith
text_beq_iff [] (y ∷ t) = ground arith
text_beq_iff (x ∷ s) [] = ground arith
text_beq_iff (x ∷ s) (y ∷ t) = ground (arith, nat_beq_iff x y, text_beq_iff s t)

instance abbrev pub text_eq : Eq Text
text_eq = record { beq_iff = text_beq_iff; beq = text_beq }

-- `to_lowercase`.
abbrev pub lower : ℕ → ℕ
lower c = if leb b'A' c && leb c b'Z' then c + 32 else c

abbrev pub to_lowercase : Text → Text
to_lowercase s = map lower s

abbrev pub is_space : ℕ → Bool
is_space c = c == 32 || (leb 9 c && leb c 13)

-- `trim`.
unfoldable pub trim_start : Text → Text
trim_start [] = []
trim_start (c ∷ s) = let rest = trim_start s in if is_space c then rest else c ∷ s

unfoldable pub trim_end : Text → Text
trim_end [] = []
trim_end (c ∷ s) = let rest = trim_end s in if is_space c && is_empty rest then [] else c ∷ rest

unfoldable pub trim : Text → Text
unfolding trim_start trim_end
trim s = trim_end (trim_start s)

unfoldable pub strip_prefix : Text → Text → Option Text
strip_prefix [] s = some s
strip_prefix (p ∷ pat) [] = none
strip_prefix (p ∷ pat) (c ∷ s) = let rest = strip_prefix pat s in if p == c then rest else none

unfoldable pub starts_with : Text → Text → Bool
starts_with [] s = true
starts_with (p ∷ pat) [] = false
starts_with (p ∷ pat) (c ∷ s) = p == c && starts_with pat s

unfoldable pub contains : Text → Text → Bool
unfolding starts_with
contains pat [] = is_empty pat
contains pat (c ∷ s) = starts_with pat (c ∷ s) || contains pat s

-- What stands before and after the first place of the pattern (`find` and two slices).
unfoldable pub find_text : Text → Text → Option (Text × Text)
unfolding strip_prefix
find_text pat [] = Option.map (λ rest. ([], rest)) (strip_prefix pat [])
find_text pat (c ∷ s) =
    let later = Option.map (λ r. (c ∷ r.0, r.1)) (find_text pat s) in
    elim (strip_prefix pat (c ∷ s)) [ some rest ↦ some ([], rest) | none ↦ later ]

-- `split_once` at one byte.
unfoldable pub split_once : ℕ → Text → Option (Text × Text)
split_once d [] = none
split_once d (c ∷ s) =
    let later = Option.map (λ r. (c ∷ r.0, r.1)) (split_once d s) in
    if c == d then some ([], s) else later

-- `split` at one byte: the first part, and the others.
unfoldable pub split_parts : ℕ → Text → Text × List Text
split_parts d [] = ([], [])
split_parts d (c ∷ s) =
    let later = split_parts d s in
    if c == d then ([], later.0 ∷ later.1) else (c ∷ later.0, later.1)

unfoldable pub split : ℕ → Text → List Text
unfolding split_parts
split d s = let parts = split_parts d s in parts.0 ∷ parts.1

-- `parse::<uN>`, where `max` is the largest value: an optional `+`, then digits.
unfoldable pub scan_digits : ℕ → Text → ℕ → Option ℕ
scan_digits max [] n = some n
scan_digits max (c ∷ s) n =
    let later = scan_digits max s (n * 10 + (c - b'0')) in
    if leb b'0' c && leb c b'9' && leb (n * 10 + (c - b'0')) max then later else none

unfoldable pub parse_number : ℕ → Text → Option ℕ
unfolding scan_digits
parse_number max [] = none
parse_number max (c ∷ []) = scan_digits max (c ∷ []) 0
parse_number max (c ∷ d ∷ s) =
    if c == b'+' then scan_digits max (d ∷ s) 0 else scan_digits max (c ∷ d ∷ s) 0

-- `to_string` of a number; the fuel is more than the number of its digits.
unfoldable pub show_on : ℕ → ℕ → Text
show_on zero n = []
show_on (suc fuel) n = elim (ltb n 10) [
  | true ↦ (b'0' + n) ∷ []
  | false ↦ show_on fuel (n / 10) ++ (b'0' + n % 10) ∷ []
]

unfoldable pub show : ℕ → Text
unfolding show_on
show n = show_on (suc n) n
