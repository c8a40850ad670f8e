-- ===== src/Rtsp/Handler/Cases.antt =====
-- The ways in which `handle_request` ends, for properties of every reply.
use vscreen.Base.Assoc.{get}
use vscreen.Base.Text.{Text, text_eq, codes}
use vscreen.Base.{
  Option, arith, at_if, at_option, none, not, refl, some, suc, zero, ℕ, ◌==◌, ◌≡◌, ◌⊎◌, nat_eq,
  string_eq,
}
use vscreen.Rtsp.Reply.{Environment, InstanceLookup, Reply, invalid_state, refuse}
use vscreen.Rtsp.Setup.{
  add_for, resolve_track, setup_done, setup_existing, setup_new, setup_track, handle_setup,
  server_ports, setup_transport,
}
use vscreen.Rtsp.Handler.{
  handle_describe, handle_get_parameter, handle_options, handle_request, handle_teardown,
  pause_session, play_session, with_named, dispatch, teardown_named,
}
use vscreen.Rtsp.Parser.{
  ok, err, panics, ParseError, Result, RtspRequest, pause, play, teardown, Method, describe,
  get_parameter, options, setup,
}
use vscreen.Rtsp.Response.{
  RtspResponse, not_found, session_not_found, header, internal_error, ok_response, set_body,
  unsupported_transport,
}
use vscreen.Rtsp.Parser.TransportHeader.{TransportMode, parse_transport}
use vscreen.Rtsp.Parser.Url.{extract_track_id, parse_media_config, extract_instance_id}
use vscreen.Rtsp.Session.Manager.{RtspSessionManager, touch}
use vscreen.Rtsp.Session.{MediaType, RtspSession, track, MediaConfig, audio, video}
use vscreen.Rtsp.Session
use vscreen.Rtsp.Transport.Output.{SocketAddr}

at_result {ℓ κ μ} :
    {A : Type ℓ} {B : Type κ} (P : B → Type μ) (r : Result A) {p : B} {f : A → B}
    {g : ParseError → B}
    → P p
    → ((a : A) → P (f a))
    → ((e : ParseError) → P (g e))
    → P (elim r [ ok a ↦ f a | err e ↦ g e | panics ↦ p ])
at_result P (ok a) hp hs he = hs a
at_result P (err e) hp hs he = he e
at_result P panics hp hs he = hp

abbrev pub IsKnown : ℕ × MediaType → Type 0
IsKnown t = (t ≡ (0, video)) ⊎ (t ≡ (1, audio))

resolve_track-IsKnown :
    (id : Option ℕ) (media : MediaConfig) (t : ℕ × MediaType)
    → resolve_track id media ≡ some t
    → IsKnown t
unfolding resolve_track
resolve_track-IsKnown none media t h = ground arith
resolve_track-IsKnown (some zero) media t h = ground arith
resolve_track-IsKnown (some (suc zero)) media t h = ground arith
resolve_track-IsKnown (some (suc (suc id))) media t h = ground arith

-- What a property of the replies has to be shown for.
module _ {ℓ} (P : Reply → Type ℓ) (lookup : InstanceLookup) (env : Environment)
    (m : RtspSessionManager) (request : RtspRequest) (client_addr : SocketAddr)
    (refused : (r : RtspResponse) → r.cseq ≡ request.cseq → P (refuse m r))
    (existing : (id : Text) (s : RtspSession) (mode : TransportMode) (ports : ℕ × ℕ)
        (t : ℕ × MediaType)
      → request.session ≡ some id
      → IsKnown t
      → get id m.sessions ≡ some s
      → Session.track s t.0 ≡ none
      → P (setup_done m id request.cseq mode ports (add_for env.now mode t ports s)))
    (created : (instance_id : Text) (mode : TransportMode) (ports : ℕ × ℕ) (t : ℕ × MediaType)
      → IsKnown t
      → P (setup_new env m request client_addr instance_id mode ports t))
    (played : (id : Text) (s : RtspSession)
      → request.method ≡ play
      → request.session ≡ some id
      → get id m.sessions ≡ some s
      → P (play_session lookup env m request.cseq id s))
    (stopped : (id : Text) (s : RtspSession)
      → request.method ≡ pause
      → request.session ≡ some id
      → get id m.sessions ≡ some s
      → P (pause_session env m request.cseq id s))
    (removed : (id : Text)
      → request.method ≡ teardown
      → request.session ≡ some id
      → P (teardown_named m request.cseq id))
    (touched : (id : Text)
      → request.session ≡ some id
      → P (refuse (touch env.now m id) (ok_response request.cseq))) where
  setup_track_ind :
      (instance_id : Text) (mode : TransportMode) (ports : ℕ × ℕ)
      → P (setup_track env m request client_addr instance_id mode ports)
  unfolding setup_track setup_existing
  setup_track_ind instance_id mode ports =
      at_option P (resolve_track (extract_track_id request.url) (parse_media_config request.url))
        (λ e. refused (not_found request.cseq) refl)
        (λ t e.
          at_option P request.session
            (λ _. created instance_id mode ports t (resolve_track-IsKnown _ _ t e))
            (λ id named.
              at_option P (get id m.sessions) (λ e. refused (session_not_found request.cseq) refl)
                (λ s found.
                  at_if P (not (s.instance_id == instance_id))
                    (refused (session_not_found request.cseq) refl)
                    (at_option P (Session.track s t.0)
                      (λ fresh.
                        existing id s mode ports t named (resolve_track-IsKnown _ _ t e) found
                          fresh)
                      (λ there e. refused (invalid_state request.cseq) refl)))))

  setup_transport_ind :
      (instance_id : Text) → P (setup_transport env m request client_addr instance_id)
  unfolding setup_transport
  setup_transport_ind instance_id =
      at_option P (get (codes "transport") request.headers)
        (λ e. refused (unsupported_transport request.cseq) refl)
        (λ value e.
          at_result P (parse_transport value) (refused (unsupported_transport request.cseq) refl)
            (λ mode.
              at_option P (server_ports env mode) (λ e. refused (internal_error request.cseq) refl)
                (λ ports e. setup_track_ind instance_id mode ports))
            (λ e. refused (unsupported_transport request.cseq) refl))

  handle_setup_ind : P (handle_setup lookup env m request client_addr)
  unfolding handle_setup
  handle_setup_ind =
      at_option P (extract_instance_id request.url) (λ e. refused (not_found request.cseq) refl)
        (λ id e.
          at_if P (lookup.instance_exists id) (setup_transport_ind id)
            (refused (not_found request.cseq) refl))

  handle_describe_ind : P (handle_describe lookup env m request request.cseq)
  unfolding handle_describe header set_body
  handle_describe_ind =
      at_option P (extract_instance_id request.url) (λ e. refused (not_found request.cseq) refl)
        (λ id e. refused _ (
          at_if {B = RtspResponse} (λ r. r.cseq ≡ request.cseq) (lookup.instance_exists id) refl
            refl))

  named_ind :
      (f : Text → RtspSession → Reply)
      → ((id : Text) (s : RtspSession)
          → request.session ≡ some id
          → get id m.sessions ≡ some s
          → P (f id s))
      → P (with_named m request f)
  named_ind f h =
      at_option P request.session (λ e. refused (session_not_found request.cseq) refl)
        (λ id named.
          at_option P (get id m.sessions) (λ e. refused (session_not_found request.cseq) refl)
            (λ s found. h id s named found))

  dispatch_ind :
      (method : Method)
      → request.method ≡ method
      → P (dispatch lookup env m request client_addr method)
  unfolding dispatch handle_options header handle_get_parameter handle_teardown
  dispatch_ind options e = refused _ refl
  dispatch_ind describe e = handle_describe_ind
  dispatch_ind setup e = handle_setup_ind
  dispatch_ind play e = named_ind (play_session lookup env m request.cseq) (λ id s. played id s e)
  dispatch_ind pause e = named_ind (pause_session env m request.cseq) (λ id s. stopped id s e)
  dispatch_ind teardown e =
      at_option P request.session (λ e. refused (session_not_found request.cseq) refl)
        (λ id. removed id e)
  dispatch_ind get_parameter e =
      at_option P request.session (λ e. refused (ok_response request.cseq) refl) touched

  pub handle_request_ind : P (handle_request lookup env m request client_addr)
  unfolding handle_request
  handle_request_ind = dispatch_ind request.method refl
