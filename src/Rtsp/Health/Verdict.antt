-- ===== src/Rtsp/Health/Verdict.antt =====
-- When a stream is declared failed, degraded or healthy.
use vscreen.Base.{arith, false, true, ℕ, ◌%◌, ◌*◌, ◌+◌, ◌<◌, ◌^◌, ◌↔◌, ◌≡◌, nat_eq, string_eq}
use vscreen.Rtsp.Health.{Fraction, StreamHealth, degraded, evaluate, failed, is_idle, reported}

-- The state is fresh, and the client's last report is as bad as said.
abbrev pub IsFailing : ℕ → StreamHealth → Type 0
IsFailing now h =
    (is_idle now h ≡ false) × (1 * h.client_packet_loss.den < 2 * h.client_packet_loss.num)

IsFailing-reported :
    (loss jitter_ms : Fraction) → (reported loss jitter_ms ≡ failed) ↔ (1 * loss.den < 2 * loss.num)
IsFailing-reported loss jitter_ms = ground arith

-- `evaluate` declares a stream failed just when it is not idle and the client reports that more
-- than half of the packets were lost. An idle stream is never failed: it is degraded, and the
-- count of stale evaluations, which a stream that is not idle has at 0, goes up by one modulo
-- 2 ^ 32.
evaluate-failed :
    (now : ℕ) (h : StreamHealth)
    → (((evaluate now h).state ≡ failed) ↔ IsFailing now h)
      × ((is_idle now h ≡ true)
          → ((evaluate now h).state ≡ degraded)
            × ((evaluate now h).consecutive_stale ≡ (h.consecutive_stale + 1) % 2 ^ 32))
      × ((is_idle now h ≡ false) → (evaluate now h).consecutive_stale ≡ 0)
unfolding evaluate
evaluate-failed now h = ground (arith, IsFailing-reported h.client_packet_loss h.client_jitter_ms)
