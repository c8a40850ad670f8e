-- ===== src/Rtsp/Session.antt =====
-- crates/vscreen-rtsp/src/session.rs: sessions, their tracks and states. A time is a number of
-- milliseconds, a task its number, and the token of a session is whether it is cancelled.
pub mod Manager
pub mod States
use vscreen.Base.Text.{Text, text_eq}
use vscreen.Base.{
  Bool, List, Option, [], any, false, find, ltb, map, none, some, true, ℕ, ◌++◌, ◌-◌, ◌==◌, ◌∷◌,
  nat_eq, string_eq,
}
use vscreen.Rtsp.Health.{StreamHealth, default}
use vscreen.Rtsp.Quality.{QualityTier}
use vscreen.Rtsp.Transport.Output.{SocketAddr}

pub data MediaType : Type 0 where
  video : MediaType
  audio : MediaType

pub record MediaConfig : Type 0 where
  pub has_video : Bool
  pub has_audio : Bool

pub record TrackInfo : Type 0 where
  pub track_id : ℕ
  pub media_type : MediaType
  pub client_rtp_port : ℕ
  pub client_rtcp_port : ℕ
  pub server_rtp_port : ℕ
  pub server_rtcp_port : ℕ
  pub interleaved_channels : Option (ℕ × ℕ)
  pub rtp_task : Option ℕ
  pub health : StreamHealth

pub data SessionState : Type 0 where
  ready : SessionState
  playing : SessionState
  paused : SessionState

pub record RtspSession : Type 0 where
  pub id : Text
  pub instance_id : Text
  pub state : SessionState
  pub client_addr : SocketAddr
  pub media_config : MediaConfig
  pub quality : QualityTier
  pub tracks : List TrackInfo
  pub created_at : ℕ
  pub last_activity : ℕ
  pub is_cancelled : Bool

unfoldable pub touch_session : ℕ → RtspSession → RtspSession
touch_session now s = record s { last_activity = now }

unfoldable pub is_expired : ℕ → ℕ → RtspSession → Bool
is_expired now timeout s = ltb timeout (now - s.last_activity)

unfoldable pub add_track : ℕ → RtspSession → ℕ → MediaType → ℕ → ℕ → ℕ → ℕ → RtspSession
unfolding touch_session
add_track now s track_id media_type client_rtp client_rtcp server_rtp server_rtcp =
    touch_session now (record s {
      tracks =
          s.tracks
          ++ (record {
            track_id = track_id;
            media_type = media_type;
            client_rtp_port = client_rtp;
            client_rtcp_port = client_rtcp;
            server_rtp_port = server_rtp;
            server_rtcp_port = server_rtcp;
            interleaved_channels = none;
            rtp_task = none;
            health = default now;
          })
            ∷ [];
    })

unfoldable pub add_interleaved_track : ℕ → RtspSession → ℕ → MediaType → ℕ → ℕ → RtspSession
unfolding touch_session
add_interleaved_track now s track_id media_type rtp_channel rtcp_channel =
    touch_session now (record s {
      tracks =
          s.tracks
          ++ (record {
            track_id = track_id;
            media_type = media_type;
            client_rtp_port = 0;
            client_rtcp_port = 0;
            server_rtp_port = 0;
            server_rtcp_port = 0;
            interleaved_channels = some (rtp_channel, rtcp_channel);
            rtp_task = none;
            health = default now;
          })
            ∷ [];
    })

unfoldable pub track : RtspSession → ℕ → Option TrackInfo
track s track_id = find (λ t. t.track_id == track_id) s.tracks

abbrev pub is_some_task : Option ℕ → Bool
is_some_task none = false
is_some_task (some task) = true

unfoldable pub has_rtp_tasks : RtspSession → Bool
has_rtp_tasks s = any (λ t. is_some_task t.rtp_task) s.tracks

-- The result of `play` and `pause`.
pub data Answer : Type 0 where
  ok : RtspSession → Answer
  not_started : Answer

unfoldable pub play : ℕ → RtspSession → Answer
unfolding touch_session
play now s = elim s.state [
  | ready ↦ ok (touch_session now (record s { state = playing }))
  | paused ↦ ok (touch_session now (record s { state = playing }))
  | playing ↦ ok s
]

unfoldable pub pause : ℕ → RtspSession → Answer
unfolding touch_session
pause now s = elim s.state [
  | playing ↦ ok (touch_session now (record s { state = paused }))
  | paused ↦ ok s
  | ready ↦ not_started
]

-- The tasks that `teardown` aborts.
abbrev pub task_of : TrackInfo → List ℕ
task_of t = elim t.rtp_task [ none ↦ [] | some task ↦ task ∷ [] ]

unfoldable pub tasks_of : List TrackInfo → List ℕ
tasks_of [] = []
tasks_of (t ∷ ts) = task_of t ++ tasks_of ts

abbrev pub without_task : TrackInfo → TrackInfo
without_task t = record t { rtp_task = none }

-- The session after `teardown`, and the aborted tasks.
unfoldable pub teardown : RtspSession → RtspSession × List ℕ
unfolding tasks_of
teardown s =
    (record s { is_cancelled = true; tracks = map without_task s.tracks }, tasks_of s.tracks)
