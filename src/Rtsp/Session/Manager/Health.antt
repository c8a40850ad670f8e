-- ===== src/Rtsp/Session/Manager/Health.antt =====
-- The health of an instance's sessions, added up.
use vscreen.Base.Text.{Text, text_eq}
use vscreen.Base.{
  Bool-cases, List, [], arith, if◌then◌else◌, inl, inr, length, length-append, refl, retain, ℕ, ◌%◌,
  ◌++◌, ◌+◌, ◌==◌, ◌^◌, ◌∷◌, ◌≡◌, nat_eq, string_eq,
}
use vscreen.Rtsp.Session.{RtspSession, TrackInfo}
use vscreen.Rtsp.Health.{HealthState, healthy, degraded, failed}
use vscreen.Rtsp.Session.Manager.{
  AggregatedHealth, add_tracks, RtspSessionManager, add_sessions, aggregated_health, count_state,
  session_count_for_instance,
}

-- The tracks of the instance's sessions, and their packets.
unfoldable pub tracks_for : Text → List (Text × RtspSession) → List TrackInfo
tracks_for instance_id [] = []
tracks_for instance_id ((id, s) ∷ sessions) =
    let rest = tracks_for instance_id sessions in
    if s.instance_id == instance_id then s.tracks ++ rest else rest

unfoldable pub packets : List TrackInfo → ℕ
packets [] = 0
packets (t ∷ ts) = t.health.packets_sent + packets ts

abbrev counted : AggregatedHealth → ℕ
counted agg = agg.healthy_count + agg.degraded_count + agg.failed_count

abbrev Adds : AggregatedHealth → ℕ → List TrackInfo → AggregatedHealth → Type 0
Adds agg sessions ts after =
    (counted after % 2 ^ 32 ≡ (counted agg + length ts) % 2 ^ 32)
    × (after.total_packets_sent % 2 ^ 64 ≡ (agg.total_packets_sent + packets ts) % 2 ^ 64)
    × (after.total_sessions % 2 ^ 32 ≡ (agg.total_sessions + sessions) % 2 ^ 32)

Adds-track :
    (agg : AggregatedHealth) (state : HealthState)
    → counted (count_state agg state) % 2 ^ 32 ≡ (counted agg + 1) % 2 ^ 32
Adds-track agg healthy = omega arith
Adds-track agg degraded = omega arith
Adds-track agg failed = omega arith

count_state-others :
    (agg : AggregatedHealth) (state : HealthState)
    → ((count_state agg state).total_packets_sent ≡ agg.total_packets_sent)
      × ((count_state agg state).total_sessions ≡ agg.total_sessions)
count_state-others agg healthy = (refl, refl)
count_state-others agg degraded = (refl, refl)
count_state-others agg failed = (refl, refl)

-- The aggregate with a track's packets and bytes, before its state is counted.
abbrev with_sent : AggregatedHealth → TrackInfo → AggregatedHealth
with_sent agg t = record agg {
  total_packets_sent = (agg.total_packets_sent + t.health.packets_sent) % 2 ^ 64;
  total_bytes_sent = (agg.total_bytes_sent + t.health.bytes_sent) % 2 ^ 64;
}

add_tracks-Adds : (agg : AggregatedHealth) (ts : List TrackInfo) → Adds agg 0 ts (add_tracks agg ts)
unfolding add_tracks packets
add_tracks-Adds agg [] = (omega arith, omega arith, omega arith)
add_tracks-Adds agg (t ∷ ts) =
    let next = count_state (with_sent agg t) t.health.state in
    let later = add_tracks-Adds next ts in
    let others = count_state-others (with_sent agg t) t.health.state in
    (
      omega (arith, later.0, Adds-track (with_sent agg t) t.health.state),
      omega (arith, later.1, others.0),
      omega (arith, later.2, others.1),
    )

packets-append : (ts us : List TrackInfo) → packets (ts ++ us) ≡ packets ts + packets us
unfolding packets
packets-append [] us = omega arith
packets-append (t ∷ ts) us = omega (arith, packets-append ts us)

add_sessions-Adds :
    (id : Text) (agg : AggregatedHealth) (m : List (Text × RtspSession))
    → Adds agg
        (length (retain (λ e. e.1.instance_id == id) m))
        (tracks_for id m)
        (add_sessions id agg m)
unfolding add_sessions tracks_for
add_sessions-Adds id agg [] = unfold packets in (omega arith, omega arith, omega arith)
add_sessions-Adds id agg ((j, s) ∷ m) = elim (Bool-cases (s.instance_id == id)) [
  | inl hit ↦
      let opened : AggregatedHealth = record agg {
        total_sessions = (agg.total_sessions + 1) % 2 ^ 32;
      } in
      let here = add_tracks-Adds opened s.tracks in
      let later = add_sessions-Adds id (add_tracks opened s.tracks) m in
      rw hit (
        omega (arith, here.0, later.0, length-append s.tracks (tracks_for id m)),
        omega (arith, here.1, later.1, packets-append s.tracks (tracks_for id m)),
        omega (arith, here.2, later.2),
      )
  | inr miss ↦ rw miss (add_sessions-Adds id agg m)
]

-- The counts of healthy, degraded and failed of an instance add up to the number of tracks of its
-- sessions (not to `total_sessions`, which is the number of its sessions), and the packets to those
-- of the tracks; each modulo the width of its counter.
aggregated_health_lem :
    (m : RtspSessionManager) (id : Text)
    → let agg = aggregated_health m id in
      ((agg.healthy_count + agg.degraded_count + agg.failed_count) % 2 ^ 32
        ≡ length (tracks_for id m.sessions) % 2 ^ 32)
      × (agg.total_packets_sent % 2 ^ 64 ≡ packets (tracks_for id m.sessions) % 2 ^ 64)
      × (agg.total_sessions % 2 ^ 32 ≡ session_count_for_instance m id % 2 ^ 32)
unfolding aggregated_health session_count_for_instance
aggregated_health_lem m id =
    let adds =
      add_sessions-Adds id
        (record {
          total_sessions = 0;
          healthy_count = 0;
          degraded_count = 0;
          failed_count = 0;
          total_packets_sent = 0;
          total_bytes_sent = 0;
        })
        m.sessions in
    (omega (arith, adds.0), omega (arith, adds.1), omega (arith, adds.2))
