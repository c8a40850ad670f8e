-- ===== src/Rtsp/Handler/Updates.antt =====
-- The one session that each part of the handlers changes.
use vscreen.Base.Assoc.{get-insert, eq_refl, get-remove, get}
use vscreen.Base.Text.{Text, text_eq}
use vscreen.Base.{
  Bool-cases, List, Option, [], ap, arith, if◌then◌else◌, inl, inr, none, refl, some, sym, ℕ, ◌==◌,
  ◌∙◌, ◌≡◌, nat_eq, string_eq,
}
use vscreen.Rtsp.Reply.{Environment, InstanceLookup, put_session}
use vscreen.Rtsp.Setup.{add_for, resolve_quality_tier, setup_new, setup_created}
use vscreen.Rtsp.Handler.{
  start_tasks, teardown_named, pause_reply, play_reply, pause_session, play_session,
}
use vscreen.Rtsp.Parser.{RtspRequest}
use vscreen.Rtsp.Response.{new}
use vscreen.Rtsp.Parser.TransportHeader.{TransportMode}
use vscreen.Rtsp.Parser.Url.{extract_query_params, parse_media_config}
use vscreen.Rtsp.Session
use vscreen.Rtsp.Session.Manager.{
  RtspSessionManager, create_session, remove_found, remove_session, touch, touch_found,
}
use vscreen.Rtsp.Session.{MediaType, RtspSession, not_started, ready, touch_session, Answer}
use vscreen.Rtsp.Transport.Output.{SocketAddr}

-- Afterwards the key has `o`, and the others what they had.
abbrev pub Updates :
    List (Text × RtspSession) → Text → Option RtspSession → List (Text × RtspSession) → Type 0
Updates old id o new = (j : Text) → get j new ≡ (if id == j then o else get j old)

pub put_session-Updates :
    (m : RtspSessionManager) (id : Text) (s : RtspSession)
    → Updates m.sessions id (some s) (put_session m id s).sessions
put_session-Updates m id s j = get-insert id j s m.sessions

-- A session of `create_session`.
abbrev pub new_session :
    Environment → RtspSessionManager → RtspRequest → SocketAddr → Text → RtspSession
new_session env m request client_addr instance_id = record {
  id = env.new_id;
  instance_id = instance_id;
  state = ready;
  client_addr = client_addr;
  media_config = parse_media_config request.url;
  quality = resolve_quality_tier (extract_query_params request.url);
  tracks = [];
  created_at = env.now;
  last_activity = env.now;
  is_cancelled = m.is_cancelled;
}

pub setup_new-Updates :
    (env : Environment) (m : RtspSessionManager) (request : RtspRequest) (client_addr : SocketAddr)
    (instance_id : Text) (mode : TransportMode) (ports : ℕ × ℕ) (t : ℕ × MediaType)
    → Updates m.sessions env.new_id
        (some (add_for env.now mode t ports (new_session env m request client_addr instance_id)))
        (setup_new env m request client_addr instance_id mode ports t).manager.sessions
unfolding setup_new setup_created create_session
setup_new-Updates env m request client_addr instance_id mode ports t j =
    let s = new_session env m request client_addr instance_id in
    let m' = put_session m env.new_id s in
    let there : get env.new_id m'.sessions ≡ some s =
      put_session-Updates m env.new_id s env.new_id ∙ rw (eq_refl env.new_id) refl in
    ap (λ o. get j (setup_created env m' request.cseq mode ports t o).manager.sessions) there
    ∙ put_session-Updates m' env.new_id (add_for env.now mode t ports s) j
    ∙ ground (arith, put_session-Updates m env.new_id s j)

pub stays :
    (m : RtspSessionManager) (id : Text) → Updates m.sessions id (get id m.sessions) m.sessions
stays m id j = elim (Bool-cases (id == j)) [
  | inl hit ↦ rw hit (ap (λ k. get k m.sessions) (sym ((text_eq.beq_iff id j).0 hit)))
  | inr miss ↦ rw miss refl
]

-- The session after a PLAY, given the result of `play`.
abbrev pub played : InstanceLookup → Environment → RtspSession → Answer → RtspSession
played lookup env s not_started = s
played lookup env s (Session.ok s') = record s' {
  tracks = start_tasks lookup s'.instance_id env.next_task s'.tracks;
}

-- The session after a PAUSE, given the result of `pause`.
abbrev pub stopped : RtspSessionManager → RtspSession → Answer → RtspSession
stopped m s not_started = s
stopped m s (Session.ok s') = record ((Session.teardown s').0) { is_cancelled = m.is_cancelled }

module _ (m : RtspSessionManager) (cseq : ℕ) (id : Text) (s : RtspSession)
    (found : get id m.sessions ≡ some s) where
  unchanged : (j : Text) → get j m.sessions ≡ (if id == j then some s else get j m.sessions)
  unchanged j = stays m id j ∙ rw found refl

  play_reply-Updates :
      (lookup : InstanceLookup) (env : Environment) (a : Answer)
      → Updates m.sessions id
          (some (played lookup env s a))
          (play_reply lookup env m cseq id a).manager.sessions
  unfolding play_reply
  play_reply-Updates lookup env not_started j = unchanged j
  play_reply-Updates lookup env (Session.ok s') j = put_session-Updates m id _ j

  pause_reply-Updates :
      (a : Answer)
      → Updates m.sessions id (some (stopped m s a)) (pause_reply m cseq id a).manager.sessions
  unfolding pause_reply
  pause_reply-Updates not_started j = unchanged j
  pause_reply-Updates (Session.ok s') j = put_session-Updates m id _ j

  pub play_session-Updates :
      (lookup : InstanceLookup) (env : Environment)
      → Updates m.sessions id
          (some (played lookup env s (Session.play env.now s)))
          (play_session lookup env m cseq id s).manager.sessions
  unfolding play_session
  play_session-Updates lookup env = play_reply-Updates lookup env (Session.play env.now s)

  pub pause_session-Updates :
      (env : Environment)
      → Updates m.sessions id
          (some (stopped m s (Session.pause env.now s)))
          (pause_session env m cseq id s).manager.sessions
  unfolding pause_session
  pause_session-Updates env = pause_reply-Updates (Session.pause env.now s)

pub teardown_named-Updates :
    (m : RtspSessionManager) (cseq : ℕ) (id : Text)
    → Updates m.sessions id none (teardown_named m cseq id).manager.sessions
unfolding teardown_named remove_session remove_found
teardown_named-Updates m cseq id j = ground (arith, stays m id j, get-remove id j m.sessions)

abbrev pub touched : ℕ → Option RtspSession → Option RtspSession
touched now none = none
touched now (some s) = some (touch_session now s)

touched-Updates :
    (now : ℕ) (m : RtspSessionManager) (id : Text) (o : Option RtspSession)
    → get id m.sessions ≡ o
    → Updates m.sessions id (touched now o) (touch_found now m id o).sessions
unfolding touch_found
touched-Updates now m id none e j = stays m id j ∙ rw e refl
touched-Updates now m id (some s) e j = put_session-Updates m id (touch_session now s) j

pub touch-Updates :
    (now : ℕ) (m : RtspSessionManager) (id : Text)
    → Updates m.sessions id (touched now (get id m.sessions)) (touch now m id).sessions
unfolding touch
touch-Updates now m id = touched-Updates now m id (get id m.sessions) refl
