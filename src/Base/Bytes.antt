-- ===== src/Base/Bytes.antt =====
-- Bytes and machine words.
use Prim.Native.Nat.{ℕ, zero, suc, ◌%◌, ◌/◌, ◌^◌, ◌+◌, ◌*◌, ◌<◌}
use mathlib.Core.List.{List, [], ◌∷◌}
use mathlib.Core.Path.{◌≡◌}
use mathlib.Core.Bool.{Bool, true, ◌&&◌}
use native.Mathlib.Omega.{arith}

-- `u16::to_be_bytes` and `u32::to_be_bytes`.
abbrev pub u16_be : ℕ → List ℕ
u16_be n = (n / 256 % 256) ∷ (n % 256) ∷ []

abbrev pub u32_be : ℕ → List ℕ
u32_be n = (n / 16777216 % 256) ∷ (n / 65536 % 256) ∷ (n / 256 % 256) ∷ (n % 256) ∷ []

-- `u16::from_be_bytes` and `u32::from_be_bytes`.
abbrev pub from_u16_be : ℕ → ℕ → ℕ
from_u16_be a b = a * 256 + b

abbrev pub from_u32_be : ℕ → ℕ → ℕ → ℕ → ℕ
from_u32_be a b c d = a * 16777216 + b * 65536 + c * 256 + d

pub from_u16_be-u16_be : (n : ℕ) → n < 2 ^ 16 → from_u16_be (n / 256 % 256) (n % 256) ≡ n
from_u16_be-u16_be n h = omega arith

pub from_u32_be-u32_be :
    (n : ℕ)
    → n < 2 ^ 32
    → from_u32_be (n / 16777216 % 256) (n / 65536 % 256) (n / 256 % 256) (n % 256) ≡ n
from_u32_be-u32_be n h = omega arith

-- A statement about bytes is checked by evaluation at every value.
unfoldable pub all_below : ℕ → (ℕ → Bool) → Bool
all_below zero test = true
all_below (suc k) test = all_below k test && test k

pub all_below_sound :
    (bound : ℕ) (test : ℕ → Bool) (i : ℕ) → all_below bound test ≡ true → i < bound → test i ≡ true
unfolding all_below
all_below_sound zero test i all small = absurd (omega arith)
all_below_sound (suc k) test i all small = ground (arith, all_below_sound k test i)
