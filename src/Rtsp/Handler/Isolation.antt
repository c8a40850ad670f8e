-- ===== src/Rtsp/Handler/Isolation.antt =====
-- Which sessions a request can change.
use vscreen.Base.Assoc.{get}
use vscreen.Base.Text.{Text, text_eq}
use vscreen.Base.{List, Option, ap, arith, refl, some, ◌∙◌, ◌≡◌, ◌≢◌, nat_eq, string_eq}
use vscreen.Rtsp.Reply.{Environment, InstanceLookup}
use vscreen.Rtsp.Handler.{handle_request}
use vscreen.Rtsp.Handler.Cases.{handle_request_ind}
use vscreen.Rtsp.Handler.Updates.{
  pause_session-Updates, play_session-Updates, put_session-Updates, setup_new-Updates,
  teardown_named-Updates, touch-Updates, Updates,
}
use vscreen.Rtsp.Parser.{RtspRequest}
use vscreen.Rtsp.Response.{new}
use vscreen.Rtsp.Session.Manager.{RtspSessionManager}
use vscreen.Rtsp.Session.{RtspSession}
use vscreen.Rtsp.Transport.Output.{SocketAddr}

other :
    (j : Text) (old new : List (Text × RtspSession)) (id : Text) (o : Option RtspSession)
    → id ≢ j
    → Updates old id o new
    → get j new ≡ get j old
other j old new id o h u = u j ∙ ground (arith, text_eq.beq_iff id j)

-- A request changes no session but the one that its `Session` header names and the one that it
-- creates: any other session id is looked up with the result that it had before, whatever the
-- method, the headers and the URL.
pub handle_request_keeps :
    (lookup : InstanceLookup) (env : Environment) (m : RtspSessionManager) (request : RtspRequest)
    (client_addr : SocketAddr) (j : Text)
    → request.session ≢ some j
    → env.new_id ≢ j
    → get j (handle_request lookup env m request client_addr).manager.sessions ≡ get j m.sessions
handle_request_keeps lookup env m request client_addr j unnamed old =
    let differs : (id : Text) → request.session ≡ some id → id ≢ j =
      λ id named e. unnamed (named ∙ ap some e) in
    handle_request_ind (λ r. get j r.manager.sessions ≡ get j m.sessions) lookup env m request
      client_addr (λ r h. refl)
      (λ id s mode ports t named known found fresh.
        other j _ _ id _ (differs id named) (put_session-Updates m id _))
      (λ instance_id mode ports t known.
        other j _ _ _ _ old (setup_new-Updates env m request client_addr instance_id mode ports t))
      (λ id s e named found.
        other j _ _ id _ (differs id named)
          (play_session-Updates m request.cseq id s found lookup env))
      (λ id s e named found.
        other j _ _ id _ (differs id named) (pause_session-Updates m request.cseq id s found env))
      (λ id e named. other j _ _ id _ (differs id named) (teardown_named-Updates m request.cseq id))
      (λ id named. other j _ _ id _ (differs id named) (touch-Updates env.now m id))
