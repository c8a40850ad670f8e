-- ===== src/Rtsp/Handler.antt =====
-- crates/vscreen-rtsp/src/handler.rs: the answer to a request, and what it does to the sessions. The
-- bodies of the spawned tasks are not part of it.
pub mod Answers
pub mod Cases
pub mod Updates
pub mod Tasks
pub mod Runs
pub mod Tracks
pub mod Isolation
use vscreen.Rtsp.Reply.{
  Environment, InstanceLookup, Reply, refuse, invalid_state, timeout_secs, put_session,
}
use vscreen.Rtsp.Setup.{or_default, resolve_quality_tier, handle_setup}
use vscreen.Base.Assoc
use vscreen.Base.Assoc.{get, insert}
use vscreen.Base.Text.{Text, codes, parse_number, text_eq}
use vscreen.Base.{
  Bool, List, Option, [], any, false, if◌then◌else◌, none, not, some, suc, true, zero, ℕ, ◌%◌, ◌&&◌,
  ◌+◌, ◌-◌, ◌/◌, ◌==◌, ◌^◌, ◌∷◌, nat_eq, string_eq,
}
use vscreen.Core.Config.{VideoCodec}
use vscreen.Rtsp.Quality.{QualityTier, custom_tier, from_name, high}
use vscreen.Rtsp.Parser.{
  RtspRequest, Method, describe, err, get_parameter, ok, options, panics, pause, play, setup,
  teardown,
}
use vscreen.Rtsp.Response.{
  RtspResponse, new, ok_response, not_found, session_not_found, header, with_session, set_body,
  internal_error, unsupported_transport,
}
use vscreen.Rtsp.Parser.TransportHeader.{
  TransportMode, format_response, tcp_interleaved, udp_unicast, parse_transport,
}
use vscreen.Rtsp.Parser.Url.{
  extract_instance_id, extract_query_params, parse_media_config, extract_track_id,
}
use vscreen.Rtsp.Sdp.{IpAddr, generate_sdp}
use vscreen.Rtsp.Session
use vscreen.Rtsp.Session.{
  MediaConfig, MediaType, RtspSession, add_interleaved_track, add_track, audio, video, Answer,
  TrackInfo, is_some_task, not_started, track,
}
use vscreen.Rtsp.Session.Manager.{RtspSessionManager, create_session, remove_session, touch}
use vscreen.Rtsp.Transport.Output.{SocketAddr}

unfoldable pub handle_options : RtspSessionManager → ℕ → Reply
handle_options m cseq = refuse m (
    header (codes "Public") (codes "OPTIONS, DESCRIBE, SETUP, PLAY, PAUSE, TEARDOWN, GET_PARAMETER")
      (ok_response cseq))

unfoldable pub handle_describe :
    InstanceLookup → Environment → RtspSessionManager → RtspRequest → ℕ → Reply
handle_describe lookup env m request cseq = elim (extract_instance_id request.url) [
  | none ↦ refuse m (not_found cseq)
  | some id ↦
      let size = or_default (lookup.video_resolution id) (1920, 1080) in
      let sdp = generate_sdp (record {
        instance_id = id;
        server_ip = env.server_ip;
        session_version = 1;
        tier = resolve_quality_tier (extract_query_params request.url);
        ptime_ms = 20;
        media = parse_media_config request.url;
        video_codec = lookup.video_codec id;
        video_width = size.0;
        video_height = size.1;
        framerate = or_default (lookup.video_framerate id) 30;
      }) in
      let described =
        header (codes "Content-Base") request.url
          (set_body (codes "application/sdp") sdp (ok_response cseq)) in
      refuse m (if lookup.instance_exists id then described else not_found cseq)
]

abbrev pub subscribes : InstanceLookup → Text → MediaType → Bool
subscribes lookup id video = lookup.subscribe_video id
subscribes lookup id audio = lookup.subscribe_audio id

-- The loop of `handle_play`: a task for each track that has none and whose media is there.
unfoldable pub start_tasks : InstanceLookup → Text → ℕ → List TrackInfo → List TrackInfo
start_tasks lookup id next [] = []
start_tasks lookup id next (t ∷ ts) =
    let started = record t { rtp_task = some next } ∷ start_tasks lookup id (next + 1) ts in
    let kept = t ∷ start_tasks lookup id next ts in
    if not (is_some_task t.rtp_task) && subscribes lookup id t.media_type then started else kept

abbrev is_video : MediaType → Bool
is_video video = true
is_video audio = false

-- `track_by_type(Video).is_some()`
abbrev pub has_video_track : RtspSession → Bool
has_video_track s = any (λ t. is_video t.media_type) s.tracks

-- What a handler does with the session that the request names, if it is there.
abbrev pub with_named : RtspSessionManager → RtspRequest → (Text → RtspSession → Reply) → Reply
with_named m request f = elim request.session [
  | none ↦ refuse m (session_not_found request.cseq)
  | some id ↦ elim (get id m.sessions) [
    | none ↦ refuse m (session_not_found request.cseq)
    | some s ↦ f id s
  ]
]

-- The reply to a PLAY, given the result of `play`.
unfoldable pub play_reply :
    InstanceLookup → Environment → RtspSessionManager → ℕ → Text → Answer → Reply
unfolding start_tasks
play_reply lookup env m cseq id not_started = refuse m (invalid_state cseq)
play_reply lookup env m cseq id (Session.ok s) = record {
  response = with_session id (timeout_secs m) (ok_response cseq);
  manager =
      put_session m id
        (record s { tracks = start_tasks lookup s.instance_id env.next_task s.tracks });
  aborted = [];
  requests_keyframe = has_video_track s;
}

unfoldable pub play_session :
    InstanceLookup → Environment → RtspSessionManager → ℕ → Text → RtspSession → Reply
unfolding play_reply Session.play
play_session lookup env m cseq id s = play_reply lookup env m cseq id (Session.play env.now s)

-- The reply to a PAUSE, given the result of `pause`.
unfoldable pub pause_reply : RtspSessionManager → ℕ → Text → Answer → Reply
unfolding Session.teardown
pause_reply m cseq id not_started = refuse m (invalid_state cseq)
pause_reply m cseq id (Session.ok s) = record {
  response = with_session id (timeout_secs m) (ok_response cseq);
  manager = put_session m id (record ((Session.teardown s).0) { is_cancelled = m.is_cancelled });
  aborted = (Session.teardown s).1;
  requests_keyframe = false;
}

unfoldable pub pause_session : Environment → RtspSessionManager → ℕ → Text → RtspSession → Reply
unfolding pause_reply Session.pause
pause_session env m cseq id s = pause_reply m cseq id (Session.pause env.now s)

-- A TEARDOWN of the session that the request names.
unfoldable pub teardown_named : RtspSessionManager → ℕ → Text → Reply
unfolding remove_session
teardown_named m cseq id =
    let r = remove_session m id in
    elim r.removed [
      | none ↦ refuse m (session_not_found cseq)
      | some s ↦ record {
        response = ok_response cseq;
        manager = r.manager;
        aborted = r.aborted;
        requests_keyframe = false;
      }
    ]

unfoldable pub handle_teardown : RtspSessionManager → RtspRequest → Reply
unfolding teardown_named
handle_teardown m request = elim request.session [
  | none ↦ refuse m (session_not_found request.cseq)
  | some id ↦ teardown_named m request.cseq id
]

unfoldable pub handle_get_parameter : Environment → RtspSessionManager → RtspRequest → Reply
unfolding touch
handle_get_parameter env m request = elim request.session [
  | none ↦ refuse m (ok_response request.cseq)
  | some id ↦ refuse (touch env.now m id) (ok_response request.cseq)
]

-- The `match` of `handle_request`.
unfoldable pub dispatch :
    InstanceLookup → Environment → RtspSessionManager → RtspRequest → SocketAddr → Method → Reply
unfolding handle_options handle_describe handle_setup play_session pause_session handle_teardown
    handle_get_parameter
dispatch lookup env m request client_addr options = handle_options m request.cseq
dispatch lookup env m request client_addr describe =
    handle_describe lookup env m request request.cseq
dispatch lookup env m request client_addr setup = handle_setup lookup env m request client_addr
dispatch lookup env m request client_addr play =
    with_named m request (play_session lookup env m request.cseq)
dispatch lookup env m request client_addr pause =
    with_named m request (pause_session env m request.cseq)
dispatch lookup env m request client_addr teardown = handle_teardown m request
dispatch lookup env m request client_addr get_parameter = handle_get_parameter env m request

unfoldable pub handle_request :
    InstanceLookup → Environment → RtspSessionManager → RtspRequest → SocketAddr → Reply
unfolding dispatch
handle_request lookup env m request client_addr =
    dispatch lookup env m request client_addr request.method
