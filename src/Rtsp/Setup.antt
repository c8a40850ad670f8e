-- ===== src/Rtsp/Setup.antt =====
-- crates/vscreen-rtsp/src/handler.rs: SETUP, in the parts that its early returns make, and the
-- quality that a URL asks for.
use vscreen.Base.Assoc.{get}
use vscreen.Base.Text.{Text, codes, parse_number, text_eq}
use vscreen.Base.{
  List, Option, if◌then◌else◌, none, not, some, suc, zero, ℕ, ◌&&◌, ◌-◌, ◌==◌, ◌^◌, nat_eq,
  string_eq,
}
use vscreen.Rtsp.Parser.{RtspRequest, err, ok, panics}
use vscreen.Rtsp.Parser.TransportHeader.{
  TransportMode, format_response, tcp_interleaved, udp_unicast, parse_transport,
}
use vscreen.Rtsp.Parser.Url.{
  extract_instance_id, extract_query_params, parse_media_config, extract_track_id,
}
use vscreen.Rtsp.Quality.{QualityTier, custom_tier, from_name, high}
use vscreen.Rtsp.Reply.{
  Environment, InstanceLookup, Reply, invalid_state, put_session, refuse, timeout_secs,
}
use vscreen.Rtsp.Response.{
  RtspResponse, header, internal_error, not_found, ok_response, session_not_found,
  unsupported_transport, with_session,
}
use vscreen.Rtsp.Session
use vscreen.Rtsp.Session.{
  MediaConfig, MediaType, RtspSession, add_interleaved_track, add_track, audio, video,
}
use vscreen.Rtsp.Session.Manager.{RtspSessionManager, create_session}
use vscreen.Rtsp.Transport.Output.{SocketAddr}

abbrev pub or_default {ℓ} : {A : Type ℓ} → Option A → A → A
or_default (some a) b = a
or_default none b = b

abbrev tier_of_kbps : List (Text × Text) → QualityTier
tier_of_kbps params = elim (get (codes "kbps") params) [
  | none ↦ high
  | some value ↦ elim (parse_number (2 ^ 32 - 1) value) [
    | none ↦ high
    | some kbps ↦
        custom_tier kbps
          (elim (get (codes "channels") params) [ none ↦ none | some c ↦ parse_number 65535 c ])
  ]
]

unfoldable pub resolve_quality_tier : List (Text × Text) → QualityTier
unfolding from_name custom_tier
resolve_quality_tier params = elim (get (codes "tier") params) [
  | none ↦ tier_of_kbps params
  | some name ↦ elim (from_name name) [ some tier ↦ tier | none ↦ tier_of_kbps params ]
]

-- The track that a SETUP is about; `none` for an unknown track.
unfoldable pub resolve_track : Option ℕ → MediaConfig → Option (ℕ × MediaType)
resolve_track none media =
    some (if media.has_video && not media.has_audio then (0, video) else (1, audio))
resolve_track (some zero) media = some (0, video)
resolve_track (some (suc zero)) media = some (1, audio)
resolve_track (some (suc (suc id))) media = none

unfoldable pub add_for : ℕ → TransportMode → ℕ × MediaType → ℕ × ℕ → RtspSession → RtspSession
unfolding add_track add_interleaved_track
add_for now (udp_unicast rtp rtcp) t ports s = add_track now s t.0 t.1 rtp rtcp ports.0 ports.1
add_for now (tcp_interleaved rtp rtcp) t ports s = add_interleaved_track now s t.0 t.1 rtp rtcp

abbrev pub setup_response : RtspSessionManager → Text → ℕ → TransportMode → ℕ × ℕ → RtspResponse
setup_response m id cseq mode ports =
    header (codes "Transport") (format_response mode ports.0 ports.1)
      (with_session id (timeout_secs m) (ok_response cseq))

abbrev pub setup_done : RtspSessionManager → Text → ℕ → TransportMode → ℕ × ℕ → RtspSession → Reply
setup_done m id cseq mode ports s =
    refuse (put_session m id s) (setup_response m id cseq mode ports)

-- A SETUP for the session that the request names.
unfoldable pub setup_existing :
    Environment
    → RtspSessionManager
    → ℕ
    → Text
    → Text
    → TransportMode
    → ℕ × ℕ
    → ℕ × MediaType
    → Reply
unfolding add_for Session.track
setup_existing env m cseq instance_id id mode ports t = elim (get id m.sessions) [
  | none ↦ refuse m (session_not_found cseq)
  | some s ↦
      if not (s.instance_id == instance_id)
      then refuse m (session_not_found cseq)
      else elim (Session.track s t.0) [
        | some there ↦ refuse m (invalid_state cseq)
        | none ↦ setup_done m id cseq mode ports (add_for env.now mode t ports s)
      ]
]

-- The end of a SETUP of a new session, given what the sessions have for its id.
unfoldable pub setup_created :
    Environment
    → RtspSessionManager
    → ℕ
    → TransportMode
    → ℕ × ℕ
    → ℕ × MediaType
    → Option RtspSession
    → Reply
unfolding add_for
setup_created env m cseq mode ports t none = refuse m (setup_response m env.new_id cseq mode ports)
setup_created env m cseq mode ports t (some s) =
    setup_done m env.new_id cseq mode ports (add_for env.now mode t ports s)

-- A SETUP without a session: a new one.
unfoldable pub setup_new :
    Environment
    → RtspSessionManager
    → RtspRequest
    → SocketAddr
    → Text
    → TransportMode
    → ℕ × ℕ
    → ℕ × MediaType
    → Reply
unfolding setup_created create_session
setup_new env m request client_addr instance_id mode ports t =
    let m' =
      create_session env.now m env.new_id instance_id client_addr (parse_media_config request.url)
        (resolve_quality_tier (extract_query_params request.url)) in
    setup_created env m' request.cseq mode ports t (get env.new_id m'.sessions)

-- The server's ports: none are bound for a TCP transport.
abbrev pub server_ports : Environment → TransportMode → Option (ℕ × ℕ)
server_ports env (tcp_interleaved rtp rtcp) = some (0, 0)
server_ports env (udp_unicast rtp rtcp) = env.port_pair

-- The part of `handle_setup` after the transport and the ports.
unfoldable pub setup_track :
    Environment
    → RtspSessionManager
    → RtspRequest
    → SocketAddr
    → Text
    → TransportMode
    → ℕ × ℕ
    → Reply
unfolding setup_existing setup_new resolve_track
setup_track env m request client_addr instance_id mode ports =
    elim (resolve_track (extract_track_id request.url) (parse_media_config request.url)) [
      | none ↦ refuse m (not_found request.cseq)
      | some t ↦ elim request.session [
        | some id ↦ setup_existing env m request.cseq instance_id id mode ports t
        | none ↦ setup_new env m request client_addr instance_id mode ports t
      ]
    ]

unfoldable pub setup_transport :
    Environment → RtspSessionManager → RtspRequest → SocketAddr → Text → Reply
unfolding setup_track
setup_transport env m request client_addr instance_id =
    elim (get (codes "transport") request.headers) [
      | none ↦ refuse m (unsupported_transport request.cseq)
      | some value ↦ elim (parse_transport value) [
        | ok mode ↦ elim (server_ports env mode) [
          | none ↦ refuse m (internal_error request.cseq)
          | some ports ↦ setup_track env m request client_addr instance_id mode ports
        ]
        | err e ↦ refuse m (unsupported_transport request.cseq)
        | panics ↦ refuse m (unsupported_transport request.cseq)
      ]
    ]

unfoldable pub handle_setup :
    InstanceLookup → Environment → RtspSessionManager → RtspRequest → SocketAddr → Reply
unfolding setup_transport
handle_setup lookup env m request client_addr = elim (extract_instance_id request.url) [
  | none ↦ refuse m (not_found request.cseq)
  | some id ↦
      if lookup.instance_exists id
      then setup_transport env m request client_addr id
      else refuse m (not_found request.cseq)
]
