-- ===== src/Http/Streams.antt =====
-- The handlers of crates/vscreen-server/src/handlers.rs for the RTSP sessions, with the lists of
-- the manager of crates/vscreen-rtsp/src/session.rs. What `info` shows of a session is the session.
pub mod Foreign
use vscreen.Base.{
  List, Option, String, if◌then◌else◌, is_some, map, none, not, retain, some, ℕ, ◌%◌, ◌/◌, ◌==◌,
  ◌^◌, nat_eq, string_eq,
}
use vscreen.Base.Assoc.{get}
use vscreen.Base.Text.{Text, text_eq}
use vscreen.Rtsp.Session.{RtspSession}
use vscreen.Rtsp.Session.Manager.{
  RtspSessionManager, remove_session, session_count, aggregated_health,
}
use vscreen.Http.State.{
  AppState, Response, answer, done, empty, on_supervisor, require_supervisor, rtsp_not_running,
  rtsp_status, stream, stream_health, streams,
}

unfoldable pub all_sessions : RtspSessionManager → List RtspSession
all_sessions m = map (λ e. e.1) m.sessions

unfoldable pub sessions_for_instance : RtspSessionManager → Text → List RtspSession
sessions_for_instance m instance_id =
    map (λ e. e.1) (retain (λ e. e.1.instance_id == instance_id) m.sessions)

abbrev pub timeout_secs : RtspSessionManager → ℕ
timeout_secs m = m.timeout / 1000 % 2 ^ 32

-- `match &state.rtsp_session_manager { Some(m) => m, None => return .. }`
abbrev on_manager :
    {F : Type 0}
    → AppState F
    → Option RtspSessionManager
    → (RtspSessionManager → AppState F × Response)
    → AppState F × Response
on_manager state none handler = (state, answer 503 rtsp_not_running)
on_manager state (some manager) handler = handler manager

module _ {F : Type 0} (utf8 : String → List ℕ) (state : AppState F) where
  unfoldable pub audio_streams : String → AppState F × Response
  unfolding sessions_for_instance
  audio_streams id = on_supervisor state (require_supervisor state id) (λ _.
      on_manager state state.rtsp_session_manager
        (λ m. (state, answer 200 (streams (sessions_for_instance m (utf8 id))))))

  abbrev info_answer : String → Option RtspSession → Response
  info_answer id none = answer 404 empty
  info_answer id (some session) =
      if not (session.instance_id == utf8 id) then answer 404 empty else answer 200 (stream session)

  unfoldable pub audio_stream_info : String → Text → AppState F × Response
  audio_stream_info id session_id = on_supervisor state (require_supervisor state id) (λ _.
      on_manager state state.rtsp_session_manager
        (λ m. (state, info_answer id (get session_id m.sessions))))

  unfoldable pub audio_stream_teardown : String → Text → AppState F × Response
  audio_stream_teardown id session_id = on_supervisor state (require_supervisor state id) (λ _.
      on_manager state state.rtsp_session_manager (λ m.
        let removal = remove_session m session_id in
        (
          record state { rtsp_session_manager = some removal.manager },
          if is_some removal.removed then answer 200 done else answer 404 empty,
        )))

  unfoldable pub audio_health : String → AppState F × Response
  audio_health id = on_supervisor state (require_supervisor state id) (λ _.
      on_manager state state.rtsp_session_manager
        (λ m. (state, answer 200 (stream_health (aggregated_health m (utf8 id))))))

  unfoldable pub rtsp_all_sessions : AppState F × Response
  unfolding all_sessions
  rtsp_all_sessions =
      on_manager state state.rtsp_session_manager
        (λ m. (state, answer 200 (streams (all_sessions m))))

  unfoldable pub rtsp_health : AppState F × Response
  rtsp_health =
      on_manager state state.rtsp_session_manager
        (λ m. (state, answer 200 (rtsp_status (session_count m) (timeout_secs m))))
