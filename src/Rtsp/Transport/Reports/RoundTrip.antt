-- ===== src/Rtsp/Transport/Reports/RoundTrip.antt =====
-- Reports read back by a reader that follows RFC 3550.
use vscreen.Base.Bytes.{from_u16_be, from_u32_be, from_u32_be-u32_be, u16_be, u32_be}
use vscreen.Base.{
  List, Option, [], arith, none, refl, some, ℕ, ◌%◌, ◌*◌, ◌++◌, ◌+◌, ◌/◌, ◌<◌, ◌^◌, ◌∷◌, ◌≡◌,
  nat_eq, string_eq,
}
use vscreen.Rtsp.Transport.Video.{RtpVideoStream}
use vscreen.Rtsp.Transport.Reports.{build_sender_report, parse_receiver_report_with_clock}

-- A receiver report with one block, as RFC 3550, 6.4.2 lays it out.
unfoldable pub receiver_report : ℕ → ℕ → ℕ → ℕ → ℕ → ℕ → ℕ → ℕ → List ℕ
receiver_report sender ssrc fraction lost highest jitter lsr dlsr =
    129 ∷ 201 ∷ u16_be 7
    ++ u32_be sender
    ++ u32_be ssrc
    ++ fraction ∷ (lost / 65536 % 256) ∷ (lost / 256 % 256) ∷ (lost % 256) ∷ u32_be highest
    ++ u32_be jitter
    ++ u32_be lsr
    ++ u32_be dlsr

-- A receiver report with one block, whose values keep to the sizes of their fields, is read as the
-- SSRC, the loss in 256ths, the 24-bit count of lost packets, and the jitter in milliseconds of
-- the clock.
pub parse_receiver_report_with_clock-receiver_report :
    (sender ssrc fraction lost highest jitter lsr dlsr clock_rate : ℕ)
    → ssrc < 2 ^ 32
    → lost < 2 ^ 24
    → jitter < 2 ^ 32
    → parse_receiver_report_with_clock
        (receiver_report sender ssrc fraction lost highest jitter lsr dlsr)
        clock_rate
      ≡ some (record {
        ssrc = ssrc;
        fraction_lost = record { num = fraction; den = 256 };
        cumulative_lost = lost;
        jitter_ms = record { num = jitter * 1000; den = clock_rate };
      })
unfolding parse_receiver_report_with_clock receiver_report
parse_receiver_report_with_clock-receiver_report _ ssrc fraction lost _ jitter _ _ clock hs hl hj =
    rw (from_u32_be-u32_be ssrc hs, from_u32_be-u32_be jitter hj, count) refl
  where
    count : (lost / 65536 % 256) * 65536 + (lost / 256 % 256) * 256 + lost % 256 ≡ lost
    count = omega arith

-- The fields of a sender report without blocks.
pub record SenderReport : Type 0 where
  pub version : ℕ
  pub packet_type : ℕ
  pub words : ℕ
  pub ssrc : ℕ
  pub ntp_secs : ℕ
  pub ntp_frac : ℕ
  pub timestamp : ℕ
  pub packets : ℕ
  pub bytes : ℕ

unfoldable pub parse_sender_report : List ℕ → Option SenderReport
parse_sender_report
      (v ∷ pt ∷ l0 ∷ l1 ∷ c0 ∷ c1 ∷ c2 ∷ c3 ∷ n0 ∷ n1 ∷ n2 ∷ n3 ∷ f0 ∷ f1 ∷ f2 ∷ f3 ∷ t0 ∷ t1 ∷ t2
        ∷ t3 ∷ p0 ∷ p1 ∷ p2 ∷ p3 ∷ b0 ∷ b1 ∷ b2 ∷ b3 ∷ []) =
    some (record {
      version = v / 64;
      packet_type = pt;
      words = from_u16_be l0 l1;
      ssrc = from_u32_be c0 c1 c2 c3;
      ntp_secs = from_u32_be n0 n1 n2 n3;
      ntp_frac = from_u32_be f0 f1 f2 f3;
      timestamp = from_u32_be t0 t1 t2 t3;
      packets = from_u32_be p0 p1 p2 p3;
      bytes = from_u32_be b0 b1 b2 b3;
    })
parse_sender_report bytes = none

-- The sender report of a stream, whose SSRC and timestamp are below 2 ^ 32, is a packet of seven
-- words, as its length field says, with the NTP seconds since the start, a fraction below 2 ^ 32,
-- the timestamp, and the counts of packets and bytes modulo 2 ^ 32.
parse_sender_report-build_sender_report :
    (s : RtpVideoStream) (elapsed : ℕ)
    → s.ssrc < 2 ^ 32
    → s.timestamp < 2 ^ 32
    → parse_sender_report (build_sender_report s elapsed)
      ≡ some (record {
        version = 2;
        packet_type = 200;
        words = 6;
        ssrc = s.ssrc;
        ntp_secs = (s.start_ntp + elapsed / 1000) % 2 ^ 32;
        ntp_frac = (elapsed % 1000) * 4294967;
        timestamp = s.timestamp;
        packets = s.health.packets_sent % 2 ^ 32;
        bytes = s.health.bytes_sent % 2 ^ 32;
      })
unfolding parse_sender_report build_sender_report
parse_sender_report-build_sender_report s elapsed hs ht =
    rw
      (
        from_u32_be-u32_be s.ssrc hs,
        from_u32_be-u32_be ((s.start_ntp + elapsed / 1000) % 2 ^ 32) (omega arith),
        from_u32_be-u32_be ((elapsed % 1000) * 4294967) (omega arith),
        from_u32_be-u32_be s.timestamp ht,
        from_u32_be-u32_be (s.health.packets_sent % 2 ^ 32) (omega arith),
        from_u32_be-u32_be (s.health.bytes_sent % 2 ^ 32) (omega arith),
      )
      refl
