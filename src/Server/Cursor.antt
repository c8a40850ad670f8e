-- ===== src/Server/Cursor.antt =====
-- `CursorPosition` of crates/vscreen-server/src/supervisor.rs: the last position of the cursor, a
-- pair of `i32` in one word of 64 bits. A coordinate is given by its value rounded to zero, an
-- integer of any size. The two halves of the word share no bit, so their `|` is their sum.
use vscreen.Base.Ints.{ℤ, pos, negsuc}
use vscreen.Base.{
  ap, ap₂, arith, if◌then◌else◌, ltb, min, ℕ, ◌%◌, ◌*◌, ◌+◌, ◌-◌, ◌/◌, ◌<◌, ◌^◌, ◌∙◌, ◌≡◌, nat_eq,
  string_eq,
}

pub record CursorPosition : Type 0 where
  pub packed : ℕ

-- `x as i32` for an `f64`, which stops at the ends of the range.
unfoldable pub float_to_i32 : ℤ → ℤ
float_to_i32 (pos n) = pos (min n (2 ^ 31 - 1))
float_to_i32 (negsuc n) = negsuc (min n (2 ^ 31 - 1))

-- `x as u32` for an `i32`.
unfoldable pub i32_to_u32 : ℤ → ℕ
i32_to_u32 (pos n) = n % 2 ^ 32
i32_to_u32 (negsuc n) = 2 ^ 32 - 1 - n % 2 ^ 32

-- `v as u32 as i32` for a `u64`.
unfoldable pub u64_to_i32 : ℕ → ℤ
u64_to_i32 v =
    let low = v % 2 ^ 32 in if ltb low (2 ^ 31) then pos low else negsuc (2 ^ 32 - 1 - low)

unfoldable pub pack : ℤ → ℤ → ℕ
pack x y = i32_to_u32 x * 2 ^ 32 + i32_to_u32 y

unfoldable pub unpack : ℕ → ℤ × ℤ
unpack v = (u64_to_i32 (v / 2 ^ 32), u64_to_i32 v)

abbrev pub new_cursor : CursorPosition
new_cursor = record { packed = pack (pos 0) (pos 0) }

unfoldable pub update : ℤ → ℤ → CursorPosition → CursorPosition
update x y c = record { packed = pack (float_to_i32 x) (float_to_i32 y) }

unfoldable pub get_cursor : CursorPosition → ℤ × ℤ
get_cursor c = unpack c.packed

i32_to_u32-bound : (x : ℤ) → i32_to_u32 x < 2 ^ 32
unfolding i32_to_u32
i32_to_u32-bound (pos n) = omega arith
i32_to_u32-bound (negsuc n) = omega arith

low_half : (a b : ℕ) → (a * 2 ^ 32 + b) % 2 ^ 32 ≡ b % 2 ^ 32
low_half a b = omega arith

high_half : (a b : ℕ) → b < 2 ^ 32 → (a * 2 ^ 32 + b) / 2 ^ 32 ≡ a
high_half a b b<w = omega arith

u64_to_i32-low : (u v : ℕ) → u % 2 ^ 32 ≡ v % 2 ^ 32 → u64_to_i32 u ≡ u64_to_i32 v
unfolding u64_to_i32
u64_to_i32-low u v e = ap (λ low. if ltb low (2 ^ 31) then pos low else negsuc (2 ^ 32 - 1 - low)) e

u64_to_i32-pos : (m : ℕ) → m < 2 ^ 31 → u64_to_i32 (m % 2 ^ 32) ≡ pos m
unfolding u64_to_i32
u64_to_i32-pos m m<h = ground arith

u64_to_i32-negsuc : (m : ℕ) → m < 2 ^ 31 → u64_to_i32 (2 ^ 32 - 1 - m % 2 ^ 32) ≡ negsuc m
unfolding u64_to_i32
u64_to_i32-negsuc m m<h = ground arith

min_bound : (n : ℕ) → min n (2 ^ 31 - 1) < 2 ^ 31
min_bound n = omega arith

u64_to_i32-i32_to_u32 : (x : ℤ) → u64_to_i32 (i32_to_u32 (float_to_i32 x)) ≡ float_to_i32 x
unfolding u64_to_i32 i32_to_u32 float_to_i32
u64_to_i32-i32_to_u32 (pos n) = u64_to_i32-pos (min n (2 ^ 31 - 1)) (min_bound n)
u64_to_i32-i32_to_u32 (negsuc n) = u64_to_i32-negsuc (min n (2 ^ 31 - 1)) (min_bound n)

-- Whatever was there before, the position that is read after an update is the one that was given,
-- each coordinate moved into the range of an `i32`: the two halves of the word do not disturb each
-- other, and a negative coordinate comes back with its sign.
get_cursor-update :
    (x y : ℤ) → (c : CursorPosition) → get_cursor (update x y c) ≡ (float_to_i32 x, float_to_i32 y)
unfolding get_cursor update pack unpack
get_cursor-update x y c =
    let yb = i32_to_u32-bound (float_to_i32 y) in
    ap₂ (λ a b. (a, b))
      (ap u64_to_i32 (high_half (i32_to_u32 (float_to_i32 x)) (i32_to_u32 (float_to_i32 y)) yb)
        ∙ u64_to_i32-i32_to_u32 x)
      (u64_to_i32-low (pack (float_to_i32 x) (float_to_i32 y)) (i32_to_u32 (float_to_i32 y))
          (low_half (i32_to_u32 (float_to_i32 x)) (i32_to_u32 (float_to_i32 y)))
        ∙ u64_to_i32-i32_to_u32 y)
