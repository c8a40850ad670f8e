-- ===== src/Rtsp/Health.antt =====
-- crates/vscreen-rtsp/src/health.rs: the health of one stream. A time is a number of
-- milliseconds, an `f64` an exact fraction (its rounding is not modelled), and the counters
-- wrap as in a release build.
pub mod Verdict
use vscreen.Base.{
  Bool, Option, if◌then◌else◌, ltb, none, some, ℕ, ◌%◌, ◌*◌, ◌+◌, ◌-◌, ◌^◌, ◌||◌, nat_eq, string_eq,
}

-- A fraction `num / den` with `den` not 0.
pub record Fraction : Type 0 where
  pub num : ℕ
  pub den : ℕ

abbrev pub exceeds : Fraction → ℕ → ℕ → Bool
exceeds x num den = ltb (num * x.den) (x.num * den)

pub data HealthState : Type 0 where
  healthy : HealthState
  degraded : HealthState
  failed : HealthState

pub record StreamHealth : Type 0 where
  pub state : HealthState
  pub packets_sent : ℕ
  pub bytes_sent : ℕ
  pub client_packet_loss : Fraction
  pub client_jitter_ms : Fraction
  pub last_rtp_sent : Option ℕ
  pub last_rtcp_received : Option ℕ
  pub created_at : ℕ
  pub consecutive_stale : ℕ

-- `StreamHealth::default()` at the time `now`.
unfoldable pub default : ℕ → StreamHealth
default now = record {
  state = healthy;
  packets_sent = 0;
  bytes_sent = 0;
  client_packet_loss = record { num = 0; den = 1 };
  client_jitter_ms = record { num = 0; den = 1 };
  last_rtp_sent = none;
  last_rtcp_received = none;
  created_at = now;
  consecutive_stale = 0;
}

unfoldable pub record_packet_sent : ℕ → StreamHealth → ℕ → StreamHealth
record_packet_sent now h bytes = record h {
  packets_sent = (h.packets_sent + 1) % 2 ^ 64;
  bytes_sent = (h.bytes_sent + bytes) % 2 ^ 64;
  last_rtp_sent = some now;
}

unfoldable pub update_from_rtcp_rr : ℕ → StreamHealth → Fraction → Fraction → StreamHealth
update_from_rtcp_rr now h packet_loss jitter_ms = record h {
  client_packet_loss = packet_loss;
  client_jitter_ms = jitter_ms;
  last_rtcp_received = some now;
}

-- No packet in the last 10 seconds, or none at all 30 seconds after the creation.
abbrev pub idle_since : Option ℕ → ℕ → ℕ → Bool
idle_since (some t) created_at now = ltb 10000 (now - t)
idle_since none created_at now = ltb 30000 (now - created_at)

unfoldable pub is_idle : ℕ → StreamHealth → Bool
is_idle now h = idle_since h.last_rtp_sent h.created_at now

-- The state that the client's reports give.
abbrev pub reported : Fraction → Fraction → HealthState
reported loss jitter_ms =
    if exceeds loss 50 100
    then failed
    else if exceeds loss 10 100 || exceeds jitter_ms 100 1
    then degraded
    else healthy

unfoldable pub evaluate : ℕ → StreamHealth → StreamHealth
unfolding is_idle
evaluate now h =
    if is_idle now h
    then record h { consecutive_stale = (h.consecutive_stale + 1) % 2 ^ 32; state = degraded }
    else record h {
      consecutive_stale = 0;
      state = reported h.client_packet_loss h.client_jitter_ms;
    }
