-- ===== src/Core/Tests.antt =====
-- The configuration on concrete inputs.
use vscreen.Base.{[], arith, false, none, refl, string_eq, ◌∷◌, ◌≡◌, ◌≢◌, nat_eq}
use vscreen.Core.Config.{AppConfig, h264, invalid_value, out_of_range, validate}
use vscreen.Core.Instance.{is_url_safe}

abbrev bad : AppConfig
bad = record {
  server = record { listen = "0.0.0.0:8450"; auth_token = none; tls = none };
  webrtc = record { stun_servers = []; turn_servers = [] };
  defaults = record {
    video = record {
      width = 1920;
      height = 1080;
      framerate = 61;
      bitrate_kbps = 6000;
      keyframe_interval = 60;
      cpu_used = 8;
      min_bitrate_kbps = 1000;
      max_bitrate_kbps = 10000;
      codec = h264;
    };
    audio = record {
      sample_rate = 48000;
      channels = 2;
      bitrate_kbps = 128;
      frame_duration_ms = 20;
    };
    rtp_output = none;
  };
  limits = record {
    max_instances = 0;
    max_peers_per_instance = 8;
    frame_queue_depth = 3;
    max_frame_size_bytes = 1000;
  };
  logging = record { level = "info"; json = false };
}

two_errors :
    validate bad
    ≡ invalid_value "limits.max_instances" "must be > 0"
      ∷ out_of_range "defaults.video.framerate" 1 60
      ∷ []
unfolding validate
two_errors = refl

not_safe : is_url_safe (97 ∷ 47 ∷ []) ≡ false
unfolding is_url_safe
not_safe = refl

abbrev good : AppConfig
good = record bad {
  defaults = record (bad.defaults) { video = record (bad.defaults.video) { framerate = 60 } };
  limits = record (bad.limits) { max_instances = 1 };
}

has_address : good.server.listen ≢ ""
has_address e = ground (arith, (string_eq.beq_iff good.server.listen "").1 e)
