-- ===== src/Rtsp/Session/Manager.antt =====
-- crates/vscreen-rtsp/src/session.rs: the manager of the sessions. The UUIDs and the time are
-- given; the handles of the aborted tasks are part of the results.
pub mod Reaping
pub mod Health
use vscreen.Base.Assoc
use vscreen.Base.Assoc.{get, keys, insert, remove}
use vscreen.Base.Text.{Text, text_eq}
use vscreen.Base.{
  Bool, List, Option, [], false, if◌then◌else◌, length, none, retain, some, ℕ, ◌%◌, ◌*◌, ◌++◌, ◌+◌,
  ◌==◌, ◌^◌, ◌∷◌, nat_eq, string_eq,
}
use vscreen.Rtsp.Health.{HealthState, degraded, failed, healthy}
use vscreen.Rtsp.Quality.{QualityTier}
use vscreen.Rtsp.Transport.Output.{SocketAddr}
use vscreen.Rtsp.Session.{
  MediaConfig, RtspSession, TrackInfo, is_expired, ready, teardown, touch_session,
}

pub record RtspSessionManager : Type 0 where
  pub sessions : List (Text × RtspSession)
  pub timeout : ℕ
  pub is_cancelled : Bool

unfoldable pub new : RtspSessionManager
new = record { sessions = []; timeout = 120 * 1000; is_cancelled = false }

unfoldable pub create_session :
    ℕ
    → RtspSessionManager
    → Text
    → Text
    → SocketAddr
    → MediaConfig
    → QualityTier
    → RtspSessionManager
create_session now m session_id instance_id client_addr media_config quality = record m {
  sessions =
      Assoc.insert session_id
        (record {
          id = session_id;
          instance_id = instance_id;
          state = ready;
          client_addr = client_addr;
          media_config = media_config;
          quality = quality;
          tracks = [];
          created_at = now;
          last_activity = now;
          is_cancelled = m.is_cancelled;
        })
        m.sessions;
}

unfoldable pub touch_found : ℕ → RtspSessionManager → Text → Option RtspSession → RtspSessionManager
unfolding touch_session
touch_found now m session_id none = m
touch_found now m session_id (some s) = record m {
  sessions = Assoc.insert session_id (touch_session now s) m.sessions;
}

unfoldable pub touch : ℕ → RtspSessionManager → Text → RtspSessionManager
unfolding touch_found
touch now m session_id = touch_found now m session_id (get session_id m.sessions)

pub record Removal : Type 0 where
  pub removed : Option RtspSession
  pub aborted : List ℕ
  pub manager : RtspSessionManager

unfoldable pub remove_found : RtspSessionManager → Text → Option RtspSession → Removal
unfolding teardown
remove_found m session_id none = record { removed = none; aborted = []; manager = m }
remove_found m session_id (some s) = record {
  removed = some (teardown s).0;
  aborted = (teardown s).1;
  manager = record m { sessions = Assoc.remove session_id m.sessions };
}

unfoldable pub remove_session : RtspSessionManager → Text → Removal
unfolding remove_found
remove_session m session_id = remove_found m session_id (get session_id m.sessions)

-- `for session_id in ids { self.remove(&session_id); }`, with all the aborted tasks.
unfoldable pub remove_each : RtspSessionManager → List Text → RtspSessionManager × List ℕ
unfolding remove_session
remove_each m [] = (m, [])
remove_each m (id ∷ ids) =
    let r = remove_session m id in
    let later = remove_each r.manager ids in (later.0, r.aborted ++ later.1)

unfoldable pub reap_expired : ℕ → RtspSessionManager → RtspSessionManager × List ℕ
unfolding remove_each is_expired
reap_expired now m = remove_each m (keys (retain (λ e. is_expired now m.timeout e.1) m.sessions))

unfoldable pub teardown_all : RtspSessionManager → RtspSessionManager × List ℕ
unfolding remove_each
teardown_all m = remove_each m (keys m.sessions)

abbrev pub session_count : RtspSessionManager → ℕ
session_count m = length m.sessions

unfoldable pub session_count_for_instance : RtspSessionManager → Text → ℕ
session_count_for_instance m instance_id =
    length (retain (λ e. e.1.instance_id == instance_id) m.sessions)

pub record AggregatedHealth : Type 0 where
  pub total_sessions : ℕ
  pub healthy_count : ℕ
  pub degraded_count : ℕ
  pub failed_count : ℕ
  pub total_packets_sent : ℕ
  pub total_bytes_sent : ℕ

abbrev pub count_state : AggregatedHealth → HealthState → AggregatedHealth
count_state agg healthy = record agg { healthy_count = (agg.healthy_count + 1) % 2 ^ 32 }
count_state agg degraded = record agg { degraded_count = (agg.degraded_count + 1) % 2 ^ 32 }
count_state agg failed = record agg { failed_count = (agg.failed_count + 1) % 2 ^ 32 }

-- The loop over the tracks of a session.
unfoldable pub add_tracks : AggregatedHealth → List TrackInfo → AggregatedHealth
add_tracks agg [] = agg
add_tracks agg (t ∷ ts) =
    let counted =
      count_state
        (record agg {
          total_packets_sent = (agg.total_packets_sent + t.health.packets_sent) % 2 ^ 64;
          total_bytes_sent = (agg.total_bytes_sent + t.health.bytes_sent) % 2 ^ 64;
        })
        t.health.state in
    add_tracks counted ts

-- The loop over the sessions.
unfoldable pub add_sessions : Text → AggregatedHealth → List (Text × RtspSession) → AggregatedHealth
unfolding add_tracks
add_sessions instance_id agg [] = agg
add_sessions instance_id agg ((id, s) ∷ sessions) =
    let with_tracks =
      add_tracks (record agg { total_sessions = (agg.total_sessions + 1) % 2 ^ 32 }) s.tracks in
    let skipped = add_sessions instance_id agg sessions in
    let added = add_sessions instance_id with_tracks sessions in
    if s.instance_id == instance_id then added else skipped

unfoldable pub aggregated_health : RtspSessionManager → Text → AggregatedHealth
unfolding add_sessions
aggregated_health m instance_id =
    add_sessions instance_id
      (record {
        total_sessions = 0;
        healthy_count = 0;
        degraded_count = 0;
        failed_count = 0;
        total_packets_sent = 0;
        total_bytes_sent = 0;
      })
      m.sessions
