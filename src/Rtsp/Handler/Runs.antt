-- ===== src/Rtsp/Handler/Runs.antt =====
-- The sessions over any run of requests, reaps, keepalives and shutdowns.
use vscreen.Base.Assoc.{get, keys}
use vscreen.Base.Text.{Text, text_eq}
use vscreen.Base.{
  List, Option, [], any, false, if◌then◌else◌, none, retain, some, subst, sym, true, ℕ, ◌==◌, ◌∷◌,
  ◌≡◌, nat_eq, string_eq,
}
use vscreen.Rtsp.Reply.{Environment, InstanceLookup}
use vscreen.Rtsp.Handler.{handle_request}
use vscreen.Rtsp.Handler.Cases.{handle_request_ind}
use vscreen.Rtsp.Handler.Tracks.{
  IsSound, add_for-IsSound, new_session-IsSound, played-IsSound, stopped-IsSound,
  touch_session-IsSound, track-new_session,
}
use vscreen.Rtsp.Handler.Updates.{
  pause_session-Updates, play_session-Updates, put_session-Updates, setup_new-Updates,
  teardown_named-Updates, touch-Updates, touched, Updates,
}
use vscreen.Rtsp.Parser.{RtspRequest}
use vscreen.Rtsp.Response.{new}
use vscreen.Rtsp.Session.Manager.{
  RtspSessionManager, reap_expired, remove_each, teardown_all, touch,
}
use vscreen.Rtsp.Session.Manager
use vscreen.Rtsp.Session.Manager.Reaping.{get-remove_each, unless}
use vscreen.Rtsp.Session.{RtspSession, is_expired}
use vscreen.Rtsp.Transport.Output.{SocketAddr}

-- What happens to the manager: a request, the reaper, the keepalive of a sender task, the shutdown.
pub data Event : Type 0 where
  handles : InstanceLookup → Environment → RtspRequest → SocketAddr → Event
  reaps : ℕ → Event
  touches : ℕ → Text → Event
  shuts_down : Event

unfoldable pub step : RtspSessionManager → Event → RtspSessionManager
unfolding handle_request reap_expired touch teardown_all
step m (handles lookup env request client_addr) =
    (handle_request lookup env m request client_addr).manager
step m (reaps now) = (reap_expired now m).0
step m (touches now id) = touch now m id
step m shuts_down = (teardown_all m).0

unfoldable pub run : RtspSessionManager → List Event → RtspSessionManager
unfolding step
run m [] = m
run m (e ∷ es) = run (step m e) es

-- What a lookup gives.
abbrev IsSoundAt : Option RtspSession → Type 0
IsSoundAt none = Unit
IsSoundAt (some s) = IsSound s

abbrev AllSound : List (Text × RtspSession) → Type 0
AllSound sessions = (k : Text) → IsSoundAt (get k sessions)

get-IsSound :
    (sessions : List (Text × RtspSession)) (k : Text) (s : RtspSession)
    → AllSound sessions
    → get k sessions ≡ some s
    → IsSound s
get-IsSound sessions k s h e = subst IsSoundAt e (h k)

Updates-AllSound :
    (old new : List (Text × RtspSession)) (id : Text) (o : Option RtspSession)
    → AllSound old
    → IsSoundAt o
    → Updates old id o new
    → AllSound new
Updates-AllSound old new id o h ho u k =
    subst IsSoundAt (sym (u k))
      (elim (id == k) as (λ b. IsSoundAt (if b then o else get k old)) [ true ↦ ho | false ↦ h k ])

touched-IsSoundAt : (now : ℕ) (o : Option RtspSession) → IsSoundAt o → IsSoundAt (touched now o)
touched-IsSoundAt now none h = tt
touched-IsSoundAt now (some s) h = touch_session-IsSound now s h

handle_request-AllSound :
    (lookup : InstanceLookup) (env : Environment) (m : RtspSessionManager) (request : RtspRequest)
    (client_addr : SocketAddr)
    → AllSound m.sessions
    → AllSound (handle_request lookup env m request client_addr).manager.sessions
handle_request-AllSound lookup env m request client_addr h =
    handle_request_ind (λ r. AllSound r.manager.sessions) lookup env m request client_addr
      (λ r e. h)
      (λ id s mode ports t named known found fresh.
        Updates-AllSound m.sessions _ id _ h
          (add_for-IsSound env.now mode t ports s known fresh (get-IsSound m.sessions id s h found))
          (put_session-Updates m id _))
      (λ instance_id mode ports t known.
        Updates-AllSound m.sessions _ _ _ h
          (add_for-IsSound env.now mode t ports _ known
            (track-new_session env m request client_addr instance_id t.0)
            (new_session-IsSound env m request client_addr instance_id))
          (setup_new-Updates env m request client_addr instance_id mode ports t))
      (λ id s e named found.
        Updates-AllSound m.sessions _ id _ h
          (played-IsSound lookup env s (get-IsSound m.sessions id s h found))
          (play_session-Updates m request.cseq id s found lookup env))
      (λ id s e named found.
        Updates-AllSound m.sessions _ id _ h
          (stopped-IsSound m env.now s (get-IsSound m.sessions id s h found))
          (pause_session-Updates m request.cseq id s found env))
      (λ id e named.
        Updates-AllSound m.sessions _ id none h tt (teardown_named-Updates m request.cseq id))
      (λ id named.
        Updates-AllSound m.sessions _ id _ h (touched-IsSoundAt env.now (get id m.sessions) (h id))
          (touch-Updates env.now m id))

remove_each-AllSound :
    (m : RtspSessionManager) (ids : List Text)
    → AllSound m.sessions
    → AllSound (remove_each m ids).0.sessions
remove_each-AllSound m ids h k =
    subst IsSoundAt (sym (get-remove_each m ids k))
      (elim (any (λ id. id == k) ids) as (λ b. IsSoundAt (unless b (get k m.sessions))) [
        | true ↦ tt
        | false ↦ h k
      ])

step-AllSound :
    (m : RtspSessionManager) (e : Event) → AllSound m.sessions → AllSound (step m e).sessions
unfolding step reap_expired teardown_all
step-AllSound m (handles lookup env request client_addr) h =
    handle_request-AllSound lookup env m request client_addr h
step-AllSound m (reaps now) h =
    remove_each-AllSound m (keys (retain (λ e. is_expired now m.timeout e.1) m.sessions)) h
step-AllSound m (touches now id) h =
    Updates-AllSound m.sessions _ id _ h (touched-IsSoundAt now (get id m.sessions) (h id))
      (touch-Updates now m id)
step-AllSound m shuts_down h = remove_each-AllSound m (keys m.sessions) h

run-AllSound :
    (m : RtspSessionManager) (es : List Event) → AllSound m.sessions → AllSound (run m es).sessions
unfolding run
run-AllSound m [] h = h
run-AllSound m (e ∷ es) h = run-AllSound (step m e) es (step-AllSound m e h)

-- Whatever requests, reaps, keepalives and shutdowns a server has seen since it started, the tracks
-- of each of its sessions have different ids, each of them is track 0 with video or track 1 with
-- audio, and a session that is not playing has no sender task.
pub run-IsSound :
    (es : List Event) (k : Text) (s : RtspSession)
    → get k (run Manager.new es).sessions ≡ some s
    → IsSound s
unfolding Manager.new
run-IsSound es k s =
    get-IsSound (run Manager.new es).sessions k s (run-AllSound Manager.new es (λ j. tt))
