-- ===== src/Cdp/Backoff.antt =====
-- crates/vscreen-cdp/src/client.rs: the delay before the next attempt to connect. A duration is a
-- number of nanoseconds.
pub mod Delays
use vscreen.Base.{
  Bool, if◌then◌else◌, ltb, min, true, ℕ, ◌%◌, ◌*◌, ◌+◌, ◌-◌, ◌/◌, ◌^◌, nat_eq, string_eq,
}

pub record RetryConfig : Type 0 where
  pub initial_delay : ℕ
  pub max_delay : ℕ
  pub max_attempts : ℕ
  pub jitter : Bool

-- `Duration::from_millis`.
abbrev pub from_millis : ℕ → ℕ
from_millis ms = ms * 10 ^ 6

abbrev pub default_config : RetryConfig
default_config = record {
  initial_delay = from_millis 100;
  max_delay = 5 * 10 ^ 9;
  max_attempts = 10;
  jitter = true;
}

-- `Duration::MAX`.
abbrev pub max_duration : ℕ
max_duration = 2 ^ 64 * 10 ^ 9 - 1

-- `1u32.checked_shl(attempt).unwrap_or(u32::MAX)`
abbrev pub factor : ℕ → ℕ
factor attempt = if ltb attempt 32 then 2 ^ attempt else 2 ^ 32 - 1

abbrev pub saturating_mul : ℕ → ℕ → ℕ
saturating_mul d k = min (d * k) max_duration

-- The delay without the jitter.
unfoldable pub plain_delay : ℕ → RetryConfig → ℕ
plain_delay attempt config =
    min (saturating_mul config.initial_delay (factor attempt)) config.max_delay

-- The jittered number of milliseconds.
unfoldable pub jittered : ℕ → ℕ → ℕ
jittered attempt ms = (ms / 2 + ((ms / 2 * (attempt + 1)) % 2 ^ 64) % (ms / 2 + 1)) % 2 ^ 64

unfoldable pub backoff_delay : ℕ → RetryConfig → ℕ
unfolding plain_delay jittered
backoff_delay attempt config =
    let delay = plain_delay attempt config in
    if config.jitter then from_millis (jittered attempt ((delay / 10 ^ 6) % 2 ^ 64)) else delay
