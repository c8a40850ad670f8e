-- ===== src/Rtsp/HandlerTests.antt =====
-- A client of the RTSP server: the sessions of handler.rs at concrete requests.
use vscreen.Rtsp.Session.{TrackInfo, playing, RtspSession, ready, touch_session, video}
use vscreen.Rtsp.Health.{default}
use vscreen.Rtsp.Quality.{high}
use vscreen.Rtsp.Parser.Url.{extract_instance_id, extract_track_id, parse_media_config}
use vscreen.Rtsp.Parser.TransportHeader.{parse_transport}
use vscreen.Base.Assoc.{get}
use vscreen.Base.Text.{
  Text, codes, text_eq, contains, find_text, parse_number, split, split_once, strip_prefix, trim,
}
use vscreen.Base.{
  Option, [], arith, false, inl, none, refl, some, true, ℕ, ◌*◌, ◌==◌, ◌↔◌, ◌∷◌, ◌≡◌, nat_eq,
  string_eq,
}
use vscreen.Core.Config.{h264}
use vscreen.Rtsp.Reply.{Environment, InstanceLookup}
use vscreen.Rtsp.Handler.{handle_request}
use vscreen.Rtsp.Setup.{add_for, resolve_quality_tier, resolve_track, setup_new}
use vscreen.Rtsp.Handler.Answers.{handle_request-IsAnswer, IsAnswer}
use vscreen.Rtsp.Handler.Isolation.{handle_request_keeps}
use vscreen.Rtsp.Handler.Runs.{run-IsSound, handles, reaps, run}
use vscreen.Rtsp.Handler.Runs
use vscreen.Rtsp.Handler.Tasks.{handle_request_stops, Mem, Runs}
use vscreen.Rtsp.Handler.Tracks.{IsSound}
use vscreen.Rtsp.Parser.{setup, play, pause, teardown, Method, RtspRequest}
use vscreen.Rtsp.Session.Manager
use vscreen.Rtsp.Session.Manager.{RtspSessionManager, new}
use vscreen.Rtsp.Transport.Output.{SocketAddr}

-- One instance, with audio and video.
abbrev lookup : InstanceLookup
lookup = record {
  instance_exists = λ id. id == codes "dev";
  subscribe_audio = λ id. true;
  subscribe_video = λ id. true;
  video_resolution = λ id. none;
  video_framerate = λ id. none;
  video_codec = λ id. h264;
}

abbrev env : Environment
env = record {
  now = 5;
  new_id = codes "s1";
  port_pair = some (9000, 9001);
  next_task = 7;
  server_ip = record { text = codes "127.0.0.1"; is_ipv6 = false };
}

abbrev client : SocketAddr
client = record { ip = "127.0.0.1"; port = 4000 }

abbrev request_for : Method → Text → Option Text → RtspRequest
request_for method url session = record {
  method = method;
  url = url;
  cseq = 3;
  session = session;
  headers = (codes "transport", codes "RTP/AVP;unicast;client_port=6000-6001") ∷ [];
  body = none;
}

abbrev set_up : RtspRequest
set_up = request_for setup (codes "rtsp://h/stream/dev/trackID=0") none

abbrev with_one : RtspSessionManager
with_one = (handle_request lookup env Manager.new set_up client).manager

abbrev track_with : Option ℕ → TrackInfo
track_with task = record {
  track_id = 0;
  media_type = video;
  client_rtp_port = 6000;
  client_rtcp_port = 6001;
  server_rtp_port = 9000;
  server_rtcp_port = 9001;
  interleaved_channels = none;
  rtp_task = task;
  health = default 5;
}

abbrev session : RtspSession
session = record {
  id = codes "s1";
  instance_id = codes "dev";
  state = ready;
  client_addr = client;
  media_config = record { has_video = true; has_audio = true };
  quality = high;
  tracks = track_with none ∷ [];
  created_at = 5;
  last_activity = 5;
  is_cancelled = false;
}

-- The same session, sent by task 4.
abbrev streaming : RtspSession
streaming = record session { state = playing; tracks = track_with (some 4) ∷ [] }

set_up_session : get (codes "s1") with_one.sessions ≡ some session
unfolding handle_request setup_new add_for resolve_track extract_instance_id extract_track_id
    parse_media_config resolve_quality_tier parse_transport touch_session default strip_prefix split
    find_text parse_number split_once contains trim Manager.new
set_up_session = refl

abbrev manager : RtspSessionManager
manager = record {
  sessions = (codes "s1", session) ∷ (codes "s0", session) ∷ [];
  timeout = 120 * 1000;
  is_cancelled = false;
}

abbrev set_up_again : RtspRequest
set_up_again = request_for setup (codes "rtsp://h/stream/dev/trackID=0") (some (codes "s1"))

refused_twice : (handle_request lookup env with_one set_up_again client).response.status ≡ 455
unfolding handle_request setup_new add_for resolve_track extract_instance_id extract_track_id
    parse_media_config resolve_quality_tier parse_transport touch_session default strip_prefix split
    find_text parse_number split_once contains trim Manager.new
refused_twice = refl

abbrev request_to_play : RtspRequest
request_to_play = request_for play (codes "rtsp://h/stream/dev") (some (codes "s1"))

abbrev request_to_pause : RtspRequest
request_to_pause = request_for pause (codes "rtsp://h/stream/dev") (some (codes "s1"))

abbrev request_to_end : RtspRequest
request_to_end = request_for teardown (codes "rtsp://h/stream/dev") (some (codes "s1"))

-- A PAUSE before any PLAY.
handle_request-IsAnswer_example :
    IsAnswer manager 3 (handle_request lookup env manager request_to_pause client)
handle_request-IsAnswer_example = handle_request-IsAnswer lookup env manager request_to_pause client

handle_request_keeps_example :
    get (codes "s0") (handle_request lookup env manager request_to_end client).manager.sessions
    ≡ some session
handle_request_keeps_example =
    handle_request_keeps lookup env manager request_to_end client (codes "s0") (ground arith)
      (ground arith)

run-IsSound_example : IsSound session
unfolding Runs.run
run-IsSound_example =
    run-IsSound (handles lookup env set_up client ∷ []) (codes "s1") session set_up_session

abbrev busy : RtspSessionManager
busy = record manager { sessions = (codes "s1", streaming) ∷ [] }

handle_request_stops_example :
    Mem 4 (handle_request lookup env busy request_to_pause client).aborted ↔ Runs 4 streaming.tracks
handle_request_stops_example =
    (handle_request_stops lookup env busy request_to_pause client (codes "s1") streaming refl refl
        (inl (refl, ground arith))).1
      4
