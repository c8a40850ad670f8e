-- ===== src/Rtsp/Watchdog/Rounds.antt =====
-- What a round of the watchdog leaves.
use vscreen.Base.Assoc.{get, map_values, get-map_values}
use vscreen.Base.Text.{Text, text_eq}
use vscreen.Base.{
  Bool, List, Option, [], ap, arith, false, if◌then◌else◌, inl, inr, map, none, refl, some, subst,
  sym, true, ℕ, ◌%◌, ◌*◌, ◌+◌, ◌-◌, ◌<◌, ◌^◌, ◌↔◌, ◌∙◌, ◌∷◌, ◌≡◌, ◌≤◌, ◌⊎◌, nat_eq, string_eq,
}
use vscreen.Rtsp.Health.{
  Fraction, HealthState, StreamHealth, degraded, evaluate, failed, healthy, idle_since, is_idle,
  reported,
}
use vscreen.Rtsp.Session.{RtspSession, TrackInfo, is_expired}
use vscreen.Rtsp.Session.Manager.{RtspSessionManager}
use vscreen.Rtsp.Session.Manager.Reaping.{IsMap, get-reap_expired, holds_for, unless}
use vscreen.Rtsp.Watchdog.{evaluate_track, evaluate_tracks, watchdog_round}

-- A round on a session, by the code's own functions.
abbrev watched : ℕ → ℕ → Option RtspSession → Option RtspSession
watched now timeout none = none
watched now timeout (some s) =
    if is_expired now timeout s then none else some (evaluate_tracks now s)

IsMap-map_values :
    (f : RtspSession → RtspSession) (sessions : List (Text × RtspSession))
    → IsMap sessions
    → IsMap (map_values f sessions)
unfolding IsMap
IsMap-map_values f [] h = tt
IsMap-map_values f ((id, s) ∷ sessions) h =
    (get-map_values f id sessions ∙ rw h.0 refl, IsMap-map_values f sessions h.1)

watched-unless :
    (now timeout : ℕ) (o : Option RtspSession)
    → unless
        (holds_for
          (is_expired now timeout)
          (elim o [ none ↦ none | some s ↦ some (evaluate_tracks now s) ]))
        (elim o [ none ↦ none | some s ↦ some (evaluate_tracks now s) ])
      ≡ watched now timeout o
unfolding evaluate_tracks is_expired
watched-unless now timeout none = refl
watched-unless now timeout (some s) = ground arith

-- Nothing sent for 10 seconds, or nothing at all for 30 seconds since the creation.
abbrev pub IsStale : Option ℕ → ℕ → ℕ → Type 0
IsStale (some sent) created now = 10_000 < now - sent
IsStale none created now = 30_000 < now - created

-- The state after an evaluation of a stream that is not stale: failed above half of the packets
-- lost, degraded above a tenth lost or more than 100 ms of jitter, and else healthy.
abbrev pub IsReported : Fraction → Fraction → HealthState → Type 0
IsReported loss jitter state =
    ((loss.den < 2 * loss.num) → state ≡ failed)
    × ((2 * loss.num ≤ loss.den)
        → ((loss.den < 10 * loss.num) ⊎ (100 * jitter.den < jitter.num))
        → state ≡ degraded)
    × ((2 * loss.num ≤ loss.den)
        → (10 * loss.num ≤ loss.den)
        → (jitter.num ≤ 100 * jitter.den)
        → state ≡ healthy)

abbrev pub IsEvaluated : ℕ → StreamHealth → StreamHealth → Type 0
IsEvaluated now h h' =
    (h' ≡ record h { state = h'.state; consecutive_stale = h'.consecutive_stale })
    × (IsStale h.last_rtp_sent h.created_at now
        → (h'.state ≡ degraded) × (h'.consecutive_stale ≡ (h.consecutive_stale + 1) % 2 ^ 32))
    × ((¬ IsStale h.last_rtp_sent h.created_at now)
        → (h'.consecutive_stale ≡ 0) × IsReported h.client_packet_loss h.client_jitter_ms h'.state)

abbrev pub AreEvaluated : ℕ → List TrackInfo → List TrackInfo → Type 0
AreEvaluated now [] [] = Unit
AreEvaluated now (t ∷ ts) (t' ∷ ts') =
    (t' ≡ record t { health = t'.health })
    × IsEvaluated now t.health t'.health
    × AreEvaluated now ts ts'
AreEvaluated now [] (t' ∷ ts') = ⊥
AreEvaluated now (t ∷ ts) [] = ⊥

-- What a round makes of a session.
abbrev pub Watched : ℕ → ℕ → Option RtspSession → Option RtspSession → Type 0
Watched now timeout none o = o ≡ none
Watched now timeout (some s) o =
    ((timeout < now - s.last_activity) → o ≡ none)
    × ((now - s.last_activity ≤ timeout)
        → (s' : RtspSession) × (o ≡ some s')
          × (s' ≡ record s { tracks = s'.tracks })
          × AreEvaluated now s.tracks s'.tracks)

reported-IsReported : (loss jitter : Fraction) → IsReported loss jitter (reported loss jitter)
reported-IsReported loss jitter = (
  λ h. ground arith,
  λ h k. elim k [ inl lost ↦ ground arith | inr late ↦ ground arith ],
  λ h k l. ground arith,
)

idle_since_iff :
    (sent : Option ℕ) (created now : ℕ)
    → (idle_since sent created now ≡ true) ↔ IsStale sent created now
idle_since_iff none created now = ground arith
idle_since_iff (some t) created now = ground arith

evaluate-IsEvaluated : (now : ℕ) (h : StreamHealth) → IsEvaluated now h (evaluate now h)
unfolding evaluate is_idle
evaluate-IsEvaluated now h =
    go (idle_since h.last_rtp_sent h.created_at now)
      (idle_since_iff h.last_rtp_sent h.created_at now)
  where
    next : Bool → StreamHealth
    next b =
        if b
        then record h { consecutive_stale = (h.consecutive_stale + 1) % 2 ^ 32; state = degraded }
        else record h {
          consecutive_stale = 0;
          state = reported h.client_packet_loss h.client_jitter_ms;
        }

    go :
        (b : Bool)
        → (b ≡ true) ↔ IsStale h.last_rtp_sent h.created_at now
        → IsEvaluated now h (next b)
    go true f = (refl, λ _. (refl, refl), λ fresh. absurd (fresh (f.0 refl)))
    go false f = (
      refl,
      λ stale. absurd (ground (arith, f.1 stale)),
      λ _. (refl, reported-IsReported h.client_packet_loss h.client_jitter_ms),
    )

evaluated-AreEvaluated :
    (now : ℕ) (ts : List TrackInfo) → AreEvaluated now ts (map (evaluate_track now) ts)
evaluated-AreEvaluated now [] = tt
evaluated-AreEvaluated now (t ∷ ts) =
    (refl, evaluate-IsEvaluated now t.health, evaluated-AreEvaluated now ts)

watched-Watched :
    (now timeout : ℕ) (o : Option RtspSession) → Watched now timeout o (watched now timeout o)
unfolding is_expired evaluate_tracks
watched-Watched now timeout none = refl
watched-Watched now timeout (some s) = (
  λ h. ground arith,
  λ h. (evaluate_tracks now s, ground arith, refl, evaluated-AreEvaluated now s.tracks),
)

get-watched :
    (now : ℕ) (m : RtspSessionManager) (k : Text)
    → IsMap m.sessions
    → get k (watchdog_round now m).0.sessions ≡ watched now m.timeout (get k m.sessions)
unfolding watchdog_round
get-watched now m k h =
    let evaluated = map_values (evaluate_tracks now) m.sessions in
    get-reap_expired now (record m { sessions = evaluated }) k
      (IsMap-map_values (evaluate_tracks now) m.sessions h)
    ∙ ap (λ o. unless (holds_for (is_expired now m.timeout) o) o)
        (get-map_values (evaluate_tracks now) k m.sessions)
    ∙ watched-unless now m.timeout (get k m.sessions)

-- Where each session has one entry, a round of the watchdog takes out the sessions that have been
-- idle for longer than the timeout, and no others. Each other session stays as it is but for the
-- health of its tracks: a track that nothing was sent on for 10 seconds, or never for 30 seconds
-- since its creation, is degraded and counts one stale evaluation more; any other has its count at
-- 0 and the state that its client's last report gives: failed above half of the packets lost,
-- degraded above a tenth or above 100 ms of jitter, and else healthy.
pub get-watchdog_round :
    (now : ℕ) (m : RtspSessionManager) (k : Text)
    → IsMap m.sessions
    → Watched now m.timeout (get k m.sessions) (get k (watchdog_round now m).0.sessions)
get-watchdog_round now m k h =
    subst (Watched now m.timeout (get k m.sessions)) (sym (get-watched now m k h))
      (watched-Watched now m.timeout (get k m.sessions))
