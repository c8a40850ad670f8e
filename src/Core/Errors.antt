-- ===== src/Core/Errors.antt =====
-- crates/vscreen-core/src/error.rs: the errors of the program, their texts, and the error of the
-- HTTP API that each becomes. A text is the list of its characters.
pub mod Api
use vscreen.Base.{Option, String, max, none, not, some, ℕ, ◌++◌, ◌/◌, nat_eq, string_eq}
use vscreen.Base.Text.{Text, codes, text_eq, show}

pub data CdpError : Type 0 where
  connection_failed : Text → CdpError
  connection_lost : CdpError
  reconnect_exhausted : ℕ → CdpError
  protocol : Text → CdpError
  screencast : Text → CdpError
  input_dispatch : Text → CdpError
  web_socket : Text → CdpError
  message_too_large : ℕ → ℕ → CdpError
  timeout : ℕ → CdpError

pub data VideoError : Type 0 where
  decode_failed : Text → VideoError
  frame_too_large : ℕ → ℕ → VideoError
  decode_timeout : ℕ → VideoError
  conversion_failed : Text → VideoError
  encode_failed : Text → VideoError
  encoder_not_initialized : VideoError
  invalid_resolution : ℕ → ℕ → VideoError

pub data AudioError : Type 0 where
  capture_failed : Text → AudioError
  source_not_found : Text → AudioError
  source_lost : AudioError
  encode_failed : Text → AudioError
  invalid_sample_rate : ℕ → AudioError
  reconnect_exhausted : ℕ → AudioError

pub data TransportError : Type 0 where
  web_rtc : Text → TransportError
  signaling : Text → TransportError
  rtp_send : Text → TransportError
  peer_not_found : Text → TransportError
  max_peers_reached : ℕ → ℕ → TransportError
  data_channel : Text → TransportError
  ice : Text → TransportError

pub data ConfigError : Type 0 where
  invalid_value : Text → Text → ConfigError
  out_of_range : Text → ℕ → ℕ → ConfigError
  parse : Text → ConfigError
  file : Text → ConfigError
  missing_field : Text → ConfigError

pub data VScreenError : Type 0 where
  cdp : CdpError → VScreenError
  video : VideoError → VScreenError
  audio : AudioError → VScreenError
  transport : TransportError → VScreenError
  config : ConfigError → VScreenError
  instance_not_found : Text → VScreenError
  instance_already_exists : Text → VScreenError
  invalid_state : Text → VScreenError
  invalid_config : Text → VScreenError
  limit_exceeded : Text → VScreenError
  no_supervisor : Text → VScreenError
  instance_locked : Text → VScreenError
  lock_not_held : Text → VScreenError
  lock_timeout : Text → VScreenError
  shutting_down : VScreenError
  channel_closed : VScreenError

-- `#[error("{text}{s}")]`.
abbrev with : String → Text → Text
with text s = codes text ++ s

-- `to_string` of each error.
unfoldable pub show_cdp : CdpError → Text
show_cdp (CdpError.connection_failed s) = with "connection failed: " s
show_cdp CdpError.connection_lost = codes "connection lost"
show_cdp (CdpError.reconnect_exhausted n) =
    codes "reconnect exhausted after " ++ (show n ++ codes " attempts")
show_cdp (CdpError.protocol s) = with "protocol error: " s
show_cdp (CdpError.screencast s) = with "screencast error: " s
show_cdp (CdpError.input_dispatch s) = with "input dispatch failed: " s
show_cdp (CdpError.web_socket s) = with "websocket error: " s
show_cdp (CdpError.message_too_large size limit) =
    codes "message too large: "
    ++ (show size ++ (codes " bytes (max " ++ (show limit ++ codes ")")))
show_cdp (CdpError.timeout ms) = codes "request timed out after " ++ (show ms ++ codes "ms")

unfoldable pub show_video : VideoError → Text
show_video (VideoError.decode_failed s) = with "decode failed: " s
show_video (VideoError.frame_too_large size limit) =
    codes "frame too large: " ++ (show size ++ (codes " bytes (max " ++ (show limit ++ codes ")")))
show_video (VideoError.decode_timeout ms) = codes "decode timeout after " ++ (show ms ++ codes "ms")
show_video (VideoError.conversion_failed s) = with "color conversion failed: " s
show_video (VideoError.encode_failed s) = with "encode failed: " s
show_video VideoError.encoder_not_initialized = codes "encoder not initialized"
show_video (VideoError.invalid_resolution width height) =
    codes "invalid resolution: " ++ (show width ++ (codes "x" ++ show height))

unfoldable pub show_audio : AudioError → Text
show_audio (AudioError.capture_failed s) = with "capture failed: " s
show_audio (AudioError.source_not_found s) = with "source not found: " s
show_audio AudioError.source_lost = codes "source lost"
show_audio (AudioError.encode_failed s) = with "encode failed: " s
show_audio (AudioError.invalid_sample_rate n) = codes "invalid sample rate: " ++ show n
show_audio (AudioError.reconnect_exhausted n) =
    codes "reconnect exhausted after " ++ (show n ++ codes " attempts")

unfoldable pub show_transport : TransportError → Text
show_transport (TransportError.web_rtc s) = with "webrtc error: " s
show_transport (TransportError.signaling s) = with "signaling error: " s
show_transport (TransportError.rtp_send s) = with "rtp send failed: " s
show_transport (TransportError.peer_not_found s) = with "peer not found: " s
show_transport (TransportError.max_peers_reached current limit) =
    codes "max peers reached: " ++ (show current ++ (codes "/" ++ show limit))
show_transport (TransportError.data_channel s) = with "data channel error: " s
show_transport (TransportError.ice s) = with "ICE error: " s

unfoldable pub show_config : ConfigError → Text
show_config (ConfigError.invalid_value field reason) =
    codes "invalid value for " ++ (field ++ (codes ": " ++ reason))
show_config (ConfigError.out_of_range field low high) =
    field
    ++ (codes " out of range (min=" ++ (show low ++ (codes ", max=" ++ (show high ++ codes ")"))))
show_config (ConfigError.parse s) = with "parse error: " s
show_config (ConfigError.file s) = with "file error: " s
show_config (ConfigError.missing_field s) = with "missing required field: " s

unfoldable pub show_error : VScreenError → Text
unfolding show_cdp show_video show_audio show_transport show_config
show_error (VScreenError.cdp e) = codes "CDP error: " ++ show_cdp e
show_error (VScreenError.video e) = codes "video error: " ++ show_video e
show_error (VScreenError.audio e) = codes "audio error: " ++ show_audio e
show_error (VScreenError.transport e) = codes "transport error: " ++ show_transport e
show_error (VScreenError.config e) = codes "config error: " ++ show_config e
show_error (VScreenError.instance_not_found s) = with "instance not found: " s
show_error (VScreenError.instance_already_exists s) = with "instance already exists: " s
show_error (VScreenError.invalid_state s) = with "invalid state transition: " s
show_error (VScreenError.invalid_config s) = with "invalid config: " s
show_error (VScreenError.limit_exceeded s) = with "limit exceeded: " s
show_error (VScreenError.no_supervisor s) = with "no supervisor running for instance: " s
show_error (VScreenError.instance_locked s) = with "instance locked by another session: " s
show_error (VScreenError.lock_not_held s) = with "lock not held: " s
show_error (VScreenError.lock_timeout s) = with "lock wait timed out: " s
show_error VScreenError.shutting_down = codes "service is shutting down"
show_error VScreenError.channel_closed = codes "channel closed"

pub data ApiErrorCode : Type 0 where
  instance_not_found instance_already_exists instance_locked lock_not_held : ApiErrorCode
  invalid_request invalid_state max_instances_reached max_peers_reached : ApiErrorCode
  service_unavailable cdp_error timeout internal_error : ApiErrorCode

pub record ApiError : Type 0 where
  pub status : ℕ
  pub code : ApiErrorCode
  pub message : Text
  pub details : Option Text

-- `Self { status, code, message, details: None }`
abbrev plain : ℕ → ApiErrorCode → Text → ApiError
plain status code message = record {
  status = status;
  code = code;
  message = message;
  details = none;
}

-- `From<&VScreenError> for ApiError`.
unfoldable pub api_error : VScreenError → ApiError
unfolding show_cdp show_config show_error
api_error (VScreenError.instance_not_found id) =
    plain 404 ApiErrorCode.instance_not_found (with "instance not found: " id)
api_error (VScreenError.instance_already_exists id) =
    plain 409 ApiErrorCode.instance_already_exists (with "instance already exists: " id)
api_error (VScreenError.instance_locked text) = plain 423 ApiErrorCode.instance_locked text
api_error (VScreenError.lock_not_held text) = plain 409 ApiErrorCode.lock_not_held text
api_error (VScreenError.lock_timeout text) = plain 408 ApiErrorCode.timeout text
api_error (VScreenError.invalid_state reason) = plain 400 ApiErrorCode.invalid_state (reason)
api_error (VScreenError.invalid_config reason) = plain 400 ApiErrorCode.invalid_request (reason)
api_error (VScreenError.limit_exceeded reason) =
    plain 429 ApiErrorCode.max_instances_reached (reason)
api_error (VScreenError.no_supervisor id) =
    plain 503 ApiErrorCode.service_unavailable (with "no supervisor running for instance: " id)
api_error VScreenError.shutting_down =
    plain 503 ApiErrorCode.service_unavailable (codes "service is shutting down")
api_error (VScreenError.config e) = plain 400 ApiErrorCode.invalid_request (show_config e)
api_error (VScreenError.cdp (CdpError.timeout ms)) =
    plain 504 ApiErrorCode.timeout (codes "CDP request timed out after " ++ (show ms ++ codes "ms"))
api_error (VScreenError.cdp e) = plain 502 ApiErrorCode.cdp_error (show_cdp e)
api_error err = record {
  status = 500;
  code = ApiErrorCode.internal_error;
  message = codes "internal error";
  details = some (show_error err);
}
