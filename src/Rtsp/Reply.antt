-- ===== src/Rtsp/Reply.antt =====
-- crates/vscreen-rtsp/src/handler.rs: what a handler is given and what it gives. The instances
-- (`InstanceLookup`) and what the environment gives a call (the time, a new UUID, the ports that
-- could be bound, the handles of spawned tasks) are parameters.
use vscreen.Base.Assoc
use vscreen.Base.Assoc.{insert}
use vscreen.Base.Text.{Text, codes, text_eq}
use vscreen.Base.{Bool, List, Option, [], false, ℕ, ◌%◌, ◌/◌, ◌^◌}
use vscreen.Core.Config.{VideoCodec}
use vscreen.Rtsp.Response.{RtspResponse, new}
use vscreen.Rtsp.Sdp.{IpAddr}
use vscreen.Rtsp.Session.{RtspSession}
use vscreen.Rtsp.Session.Manager.{RtspSessionManager}

pub record InstanceLookup : Type 0 where
  pub instance_exists : Text → Bool
  pub subscribe_audio : Text → Bool
  pub subscribe_video : Text → Bool
  pub video_resolution : Text → Option (ℕ × ℕ)
  pub video_framerate : Text → Option ℕ
  pub video_codec : Text → VideoCodec

pub record Environment : Type 0 where
  pub now : ℕ
  pub new_id : Text
  pub port_pair : Option (ℕ × ℕ)
  pub next_task : ℕ
  pub server_ip : IpAddr

-- The response, the sessions, the aborted tasks, and whether a keyframe was asked for.
pub record Reply : Type 0 where
  pub response : RtspResponse
  pub manager : RtspSessionManager
  pub aborted : List ℕ
  pub requests_keyframe : Bool

-- A response that leaves everything as it is.
abbrev pub refuse : RtspSessionManager → RtspResponse → Reply
refuse m response = record {
  response = response;
  manager = m;
  aborted = [];
  requests_keyframe = false;
}

abbrev pub invalid_state : ℕ → RtspResponse
invalid_state = new 455 (codes "Method Not Valid in This State")

abbrev pub timeout_secs : RtspSessionManager → ℕ
timeout_secs m = (m.timeout / 1000) % 2 ^ 32

-- A change of a session that is there (`get_mut`).
abbrev pub put_session : RtspSessionManager → Text → RtspSession → RtspSessionManager
put_session m id s = record m { sessions = Assoc.insert id s m.sessions }
