-- ===== src/Cdp/Backoff/Delays.antt =====
-- How long the delays are.
use vscreen.Base.{arith, ℕ, ◌%◌, ◌*◌, ◌+◌, ◌/◌, ◌<◌, ◌^◌, ◌≤◌, nat_eq, string_eq}
use native.Mathlib.Nat.{pow-le-pow_right, mod-lt, mul-le-mul_left}
use vscreen.Cdp.Backoff.{RetryConfig, backoff_delay, from_millis, jittered, plain_delay, factor}

mod_le : (x k : ℕ) → x % (k + 1) ≤ k
mod_le x k = omega (arith, mod-lt x {m = k + 1} (omega arith))

pow_le : (i j : ℕ) → i ≤ j → 2 ^ i ≤ 2 ^ j
pow_le i j h = pow-le-pow_right (omega arith) h

factor_le : (a b : ℕ) → a ≤ b → factor a ≤ factor b
factor_le a b h = ground (arith, pow_le a b h, pow_le a 31)

jittered-bounds :
    (attempt ms : ℕ) → ms < 2 ^ 63 → (jittered attempt ms ≤ ms) × (ms / 2 ≤ jittered attempt ms)
unfolding jittered
jittered-bounds attempt ms h =
    let k = mod_le ((ms / 2 * (attempt + 1)) % 2 ^ 64) (ms / 2) in
    (omega (arith, k), omega (arith, k))

-- The delay is never longer than the configured maximum. It is at least half of what it is without
-- jitter, up to two milliseconds, where the maximum is less than 2^63 milliseconds.
pub backoff_delay-bounds :
    (attempt : ℕ) (config : RetryConfig)
    → config.max_delay < from_millis (2 ^ 63)
    → (backoff_delay attempt config ≤ config.max_delay)
      × (plain_delay attempt config ≤ 2 * (backoff_delay attempt config) + from_millis 2)
unfolding backoff_delay plain_delay jittered
backoff_delay-bounds attempt config h =
    let ms = (plain_delay attempt config / 10 ^ 6) % 2 ^ 64 in
    let j = jittered-bounds attempt ms in ground (arith, j)

-- Without jitter, a later attempt never waits for less time than an earlier one, also where the
-- shift by the number of attempts overflows.
plain_delay_monotone :
    (a b : ℕ) (config : RetryConfig) → a ≤ b → plain_delay a config ≤ plain_delay b config
unfolding plain_delay
plain_delay_monotone a b config h =
    omega (arith, mul-le-mul_left config.initial_delay (factor_le a b h))
