-- ===== src/Rtsp/Session/States.antt =====
-- The states of a session over its whole life.
use vscreen.Base.{
  Bool, List, [], any, ap, ap₂, arith, false, not, refl, true, ℕ, ◌&&◌, ◌||◌, ◌∙◌, ◌∷◌, ◌≡◌, nat_eq,
  string_eq,
}
use vscreen.Rtsp.Session.{
  Answer, MediaType, RtspSession, SessionState, add_interleaved_track, add_track, not_started, ok,
  pause, paused, play, playing, ready, touch_session,
}

-- What a client and the server do with a session that is there.
pub data Op : Type 0 where
  does_play : Op
  does_pause : Op
  does_touch : Op
  adds_interleaved : ℕ → MediaType → ℕ → ℕ → Op
  adds_udp : ℕ → MediaType → ℕ → ℕ → ℕ → ℕ → Op

abbrev keep : RtspSession → Answer → RtspSession
keep s (ok next) = next
keep s not_started = s

unfoldable pub step : ℕ → RtspSession → Op → RtspSession
unfolding play pause touch_session add_interleaved_track add_track
step now s does_play = keep s (play now s)
step now s does_pause = keep s (pause now s)
step now s does_touch = touch_session now s
step now s (adds_interleaved id media rtp rtcp) = add_interleaved_track now s id media rtp rtcp
step now s (adds_udp id media client_rtp client_rtcp server_rtp server_rtcp) =
    add_track now s id media client_rtp client_rtcp server_rtp server_rtcp

unfoldable pub run : ℕ → RtspSession → List Op → RtspSession
unfolding step
run now s [] = s
run now s (op ∷ ops) = run now (step now s op) ops

-- The reference: the last of the plays and pauses, and nothing before the first play.
abbrev pub is_play : Op → Bool
is_play does_play = true
is_play op = false

abbrev is_pause : Op → Bool
is_pause does_pause = true
is_pause op = false

-- No play or pause follows the last play, or the last pause.
unfoldable pub ends_playing : Bool → List Op → Bool
ends_playing b [] = b
ends_playing b (op ∷ ops) = ends_playing (is_play op || (b && not (is_pause op))) ops

abbrev pub state_for : Bool → Bool → SessionState
state_for true b = playing
state_for false true = paused
state_for false false = ready

-- A session started so far is not ready.
abbrev has_started : SessionState → Bool
has_started ready = false
has_started state = true

abbrev is_playing : SessionState → Bool
is_playing playing = true
is_playing state = false

state_for_self :
    (state : SessionState) → state ≡ state_for (is_playing state) (has_started state || false)
state_for_self ready = refl
state_for_self playing = refl
state_for_self paused = refl

step-states :
    (now : ℕ) (s : RtspSession) (op : Op)
    → (is_playing (step now s op).state ≡ (is_play op || (is_playing s.state && not (is_pause op))))
      × (has_started (step now s op).state ≡ (has_started s.state || is_play op))
unfolding step play pause touch_session add_interleaved_track add_track
step-states now s does_play = ground arith
step-states now s does_pause = ground arith
step-states now s does_touch = ground arith
step-states now s (adds_interleaved id media rtp rtcp) = ground arith
step-states now s (adds_udp id media c d e f) = ground arith

or_assoc : (a b c : Bool) → ((a || b) || c) ≡ (a || (b || c))
or_assoc true b c = refl
or_assoc false b c = refl

run-state_for :
    (now : ℕ) (s : RtspSession) (ops : List Op)
    → (run now s ops).state
      ≡ state_for (ends_playing (is_playing s.state) ops) (has_started s.state || any is_play ops)
unfolding run ends_playing
run-state_for now s [] = state_for_self s.state
run-state_for now s (op ∷ ops) =
    run-state_for now (step now s op) ops
    ∙ ap₂ (λ x y. state_for (ends_playing x ops) y) (step-states now s op).0
        (ap (λ x. x || any is_play ops) (step-states now s op).1
          ∙ or_assoc (has_started s.state) (is_play op) (any is_play ops))

-- A session that is ready, as a new one is, is ready after any plays, pauses, keepalives and added
-- tracks, over UDP or interleaved, just as long as there was no play. After a play it is playing if no pause follows the
-- last play, and else paused.
pub run-state :
    (now : ℕ) (s : RtspSession) (ops : List Op)
    → s.state ≡ ready
    → (run now s ops).state ≡ state_for (ends_playing false ops) (any is_play ops)
run-state now s ops h =
    run-state_for now s ops
    ∙ ap (λ x. state_for (ends_playing (is_playing x) ops) (has_started x || any is_play ops)) h
