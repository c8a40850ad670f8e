-- ===== src/Http/Streams/Foreign.antt =====
-- The sessions of another instance.
use vscreen.Base.{
  List, Option, String, arith, none, refl, some, ℕ, ◌∙◌, ◌≡◌, ◌≢◌, nat_eq, string_eq,
}
use vscreen.Base.Assoc.{get, get-remove, eq_refl}
use vscreen.Base.Text.{Text, text_eq}
use vscreen.Rtsp.Session.{RtspSession}
use vscreen.Rtsp.Session.Manager.{RtspSessionManager, remove_found, remove_session}
use vscreen.Http.State.{AppState, Supervisor, answer, done, empty, present, require_supervisor}
use vscreen.Http.Streams.{audio_stream_info, audio_stream_teardown}

abbrev session_of : Option RtspSessionManager → Text → Option RtspSession
session_of none session_id = none
session_of (some m) session_id = get session_id m.sessions

-- Let an RTSP session belong to an instance other than the one in the path, which has a
-- supervisor. The request for its information is answered with 404, as one for a session that is
-- not there; but the request to tear it down is answered with 200, and the session is gone.
pub audio_stream_teardown-foreign :
    {F : Type 0} (utf8 : String → List ℕ) (state : AppState F) (id : String) (session_id : Text)
    (sup : Supervisor F) (m : RtspSessionManager) (session : RtspSession)
    → require_supervisor state id ≡ present sup
    → state.rtsp_session_manager ≡ some m
    → get session_id m.sessions ≡ some session
    → session.instance_id ≢ utf8 id
    → let (state', response) = audio_stream_teardown utf8 state id session_id in
      ((audio_stream_info utf8 state id session_id).1 ≡ answer 404 empty)
      × (response ≡ answer 200 done)
      × (session_of state'.rtsp_session_manager session_id ≡ none)
unfolding audio_stream_info audio_stream_teardown remove_session remove_found
audio_stream_teardown-foreign utf8 state id session_id sup m session e r g other =
    rw (e, r, g)
      (
        ground (arith, text_eq.beq_iff session.instance_id (utf8 id)),
        refl,
        get-remove session_id session_id m.sessions ∙ ground (arith, eq_refl {K = Text} session_id),
      )
