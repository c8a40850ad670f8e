-- ===== src/Core/Config.antt =====
-- crates/vscreen-core/src/config.rs: the configuration and its validation.
pub mod Validation
use vscreen.Base.{
  Bool, List, Option, String, [], false, ltb, not, true, ℕ, ◌++◌, ◌==◌, ◌||◌, ◌∷◌, nat_eq,
  string_eq,
}

-- Of crates/vscreen-core/src/frame.rs.
pub data VideoCodec : Type 0 where
  vp9 : VideoCodec
  h264 : VideoCodec

pub record TlsConfig : Type 0 where
  pub cert_path : String
  pub key_path : String

pub record ServerConfig : Type 0 where
  pub listen : String
  pub auth_token : Option String
  pub tls : Option TlsConfig

pub record TurnServer : Type 0 where
  pub url : String
  pub username : String
  pub credential : String

pub record WebRtcConfig : Type 0 where
  pub stun_servers : List String
  pub turn_servers : List TurnServer

pub record VideoConfig : Type 0 where
  pub width : ℕ
  pub height : ℕ
  pub framerate : ℕ
  pub bitrate_kbps : ℕ
  pub keyframe_interval : ℕ
  pub cpu_used : ℕ
  pub min_bitrate_kbps : ℕ
  pub max_bitrate_kbps : ℕ
  pub codec : VideoCodec

pub record AudioConfig : Type 0 where
  pub sample_rate : ℕ
  pub channels : ℕ
  pub bitrate_kbps : ℕ
  pub frame_duration_ms : ℕ

pub record RtpOutputConfig : Type 0 where
  pub address : String
  pub port : ℕ
  pub multicast : Bool

pub record DefaultsConfig : Type 0 where
  pub video : VideoConfig
  pub audio : AudioConfig
  pub rtp_output : Option RtpOutputConfig

pub record LimitsConfig : Type 0 where
  pub max_instances : ℕ
  pub max_peers_per_instance : ℕ
  pub frame_queue_depth : ℕ
  pub max_frame_size_bytes : ℕ

pub record LoggingConfig : Type 0 where
  pub level : String
  pub json : Bool

pub record AppConfig : Type 0 where
  pub server : ServerConfig
  pub webrtc : WebRtcConfig
  pub defaults : DefaultsConfig
  pub limits : LimitsConfig
  pub logging : LoggingConfig

pub data ConfigError : Type 0 where
  invalid_value : String → String → ConfigError
  out_of_range : String → ℕ → ℕ → ConfigError

-- `if failed { errors.push(error); }`
abbrev pub push_if : Bool → ConfigError → List ConfigError → List ConfigError
push_if true error errors = errors ++ error ∷ []
push_if false error errors = errors

-- The errors of `validate`; it succeeds if there are none.
unfoldable pub validate : AppConfig → List ConfigError
validate c =
    let video = c.defaults.video in
    let depth = c.limits.frame_queue_depth in
    let e₁ =
      push_if (c.server.listen == "") (invalid_value "server.listen" "must not be empty") [] in
    let e₂ =
      push_if (c.limits.max_instances == 0) (invalid_value "limits.max_instances" "must be > 0")
        e₁ in
    let e₃ =
      push_if (c.limits.max_peers_per_instance == 0)
        (invalid_value "limits.max_peers_per_instance" "must be > 0") e₂ in
    let e₄ =
      push_if (ltb depth 1 || ltb 30 depth) (out_of_range "limits.frame_queue_depth" 1 30) e₃ in
    let e₅ =
      push_if (video.framerate == 0 || ltb 60 video.framerate)
        (out_of_range "defaults.video.framerate" 1 60) e₄ in
    push_if (video.bitrate_kbps == 0) (invalid_value "defaults.video.bitrate_kbps" "must be > 0") e₅
