-- ===== src/Rtsp/Handler/Answers.antt =====
-- What the answer to a request says, and when it changes nothing.
use vscreen.Base.Text.{Text, text_eq}
use vscreen.Base.{[], arith, false, inl, inr, refl, ℕ, ◌≡◌, ◌⊎◌, nat_eq, string_eq}
use vscreen.Rtsp.Reply.{Environment, InstanceLookup, Reply}
use vscreen.Rtsp.Handler.{handle_request, pause_session, play_session, teardown_named}
use vscreen.Rtsp.Setup.{setup_new}
use vscreen.Rtsp.Handler.Cases.{handle_request_ind}
use vscreen.Rtsp.Parser.{RtspRequest}
use vscreen.Rtsp.Response.{header, with_session}
use vscreen.Rtsp.Parser.TransportHeader.{TransportMode}
use vscreen.Rtsp.Session.Manager.{RtspSessionManager}
use vscreen.Rtsp.Session.{MediaType, RtspSession}
use vscreen.Rtsp.Transport.Output.{SocketAddr}

-- Whether the sessions, the running tasks and the encoder are as they were.
abbrev pub Leaves : RtspSessionManager → Reply → Type 0
Leaves m r = (r.manager ≡ m) × (r.aborted ≡ []) × (r.requests_keyframe ≡ false)

-- The request's number, and success or no change.
abbrev pub IsAnswer : RtspSessionManager → ℕ → Reply → Type 0
IsAnswer m cseq r = (r.response.cseq ≡ cseq) × ((r.response.status ≡ 200) ⊎ Leaves m r)

setup_new-IsAnswer :
    (env : Environment) (m : RtspSessionManager) (request : RtspRequest) (client_addr : SocketAddr)
    (instance_id : Text) (mode : TransportMode) (ports : ℕ × ℕ) (t : ℕ × MediaType)
    → IsAnswer m request.cseq (setup_new env m request client_addr instance_id mode ports t)
unfolding setup_new header with_session
setup_new-IsAnswer env m request client_addr instance_id mode ports t = ground arith

play_session-IsAnswer :
    (lookup : InstanceLookup) (env : Environment) (m : RtspSessionManager) (cseq : ℕ) (id : Text)
    (s : RtspSession)
    → IsAnswer m cseq (play_session lookup env m cseq id s)
unfolding play_session with_session
play_session-IsAnswer lookup env m cseq id s = ground arith

pause_session-IsAnswer :
    (env : Environment) (m : RtspSessionManager) (cseq : ℕ) (id : Text) (s : RtspSession)
    → IsAnswer m cseq (pause_session env m cseq id s)
unfolding pause_session with_session
pause_session-IsAnswer env m cseq id s = ground arith

teardown_named-IsAnswer :
    (m : RtspSessionManager) (cseq : ℕ) (id : Text) → IsAnswer m cseq (teardown_named m cseq id)
unfolding teardown_named
teardown_named-IsAnswer m cseq id = ground arith

-- The answer to any request carries the request's number, and an answer with a status other than
-- 200 leaves the sessions, the running tasks and the encoder as they were.
pub handle_request-IsAnswer :
    (lookup : InstanceLookup) (env : Environment) (m : RtspSessionManager) (request : RtspRequest)
    (client_addr : SocketAddr)
    → IsAnswer m request.cseq (handle_request lookup env m request client_addr)
unfolding header with_session
handle_request-IsAnswer lookup env m request client_addr =
    handle_request_ind (IsAnswer m request.cseq) lookup env m request client_addr
      (λ r h. (h, inr (refl, refl, refl)))
      (λ id s mode ports t named known found fresh. (refl, inl refl))
      (λ instance_id mode ports t known.
        setup_new-IsAnswer env m request client_addr instance_id mode ports t)
      (λ id s e named found. play_session-IsAnswer lookup env m request.cseq id s)
      (λ id s e named found. pause_session-IsAnswer env m request.cseq id s)
      (λ id e named. teardown_named-IsAnswer m request.cseq id) (λ id named. (refl, inl refl))
