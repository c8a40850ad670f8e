-- ===== src/Rtsp/Watchdog.antt =====
-- crates/vscreen-rtsp/src/server.rs: a round of the watchdog. Sessions stand in the map under their
-- own ids, so that the round visits each entry.
pub mod Rounds
use vscreen.Base.Assoc.{map_values}
use vscreen.Base.{List, map, ℕ, nat_eq, string_eq}
use vscreen.Rtsp.Health.{evaluate}
use vscreen.Rtsp.Session.{RtspSession, TrackInfo}
use vscreen.Rtsp.Session.Manager.{RtspSessionManager, reap_expired}

abbrev pub evaluate_track : ℕ → TrackInfo → TrackInfo
evaluate_track now t = record t { health = evaluate now t.health }

-- The inner loop of `run_watchdog`.
unfoldable pub evaluate_tracks : ℕ → RtspSession → RtspSession
evaluate_tracks now s = record s { tracks = map (evaluate_track now) s.tracks }

-- The sessions after a round, and the aborted tasks.
unfoldable pub watchdog_round : ℕ → RtspSessionManager → RtspSessionManager × List ℕ
unfolding evaluate_tracks reap_expired
watchdog_round now m =
    reap_expired now (record m { sessions = map_values (evaluate_tracks now) m.sessions })
