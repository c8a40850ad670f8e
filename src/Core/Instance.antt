-- ===== src/Core/Instance.antt =====
-- crates/vscreen-core/src/instance.rs: the configuration and the state of a browser instance.
use vscreen.Base.{
  Bool, List, Option, String, all, false, is_empty, leb, length, not, true, ℕ, ◌&&◌, ◌==◌, ◌||◌,
  nat_eq, string_eq,
}
use vscreen.Core.Config.{AudioConfig, RtpOutputConfig, VideoConfig}

pub record InstanceConfig : Type 0 where
  pub instance_id : String
  pub cdp_endpoint : String
  pub pulse_source : String
  pub display : Option String
  pub video : VideoConfig
  pub audio : AudioConfig
  pub rtp_output : Option RtpOutputConfig

-- A reason is its text, `since` a time.
pub data InstanceState : Type 0 where
  created : InstanceState
  starting : InstanceState
  running : InstanceState
  degraded : String → ℕ → InstanceState
  failed : String → ℕ → InstanceState
  stopping : InstanceState
  stopped : InstanceState

abbrev between : ℕ → ℕ → ℕ → Bool
between low b high = leb low b && leb b high

-- The bytes of an ID that is safe in URLs.
abbrev is_safe_byte : ℕ → Bool
is_safe_byte b =
    between 48 b 57 || between 65 b 90 || between 97 b 122 || b == 45 || b == 95 || b == 46

-- `is_url_safe` on the UTF-8 bytes of the ID.
unfoldable pub is_url_safe : List ℕ → Bool
is_url_safe bytes = not (is_empty bytes) && leb (length bytes) 128 && all is_safe_byte bytes

unfoldable pub is_terminal : InstanceState → Bool
is_terminal stopped = true
is_terminal (failed reason since) = true
is_terminal state = false

unfoldable pub is_running : InstanceState → Bool
is_running running = true
is_running (degraded reason since) = true
is_running state = false

unfoldable pub can_accept_peers : InstanceState → Bool
can_accept_peers running = true
can_accept_peers (degraded reason since) = true
can_accept_peers state = false
