-- ===== src/Rtsp/Transport/Reports.antt =====
-- crates/vscreen-rtsp/src/transport.rs: RTCP sender reports and receiver reports.
pub mod RoundTrip
use vscreen.Base.Bytes.{from_u32_be, u16_be, u32_be}
use vscreen.Base.{
  List, Option, get_elem?, if◌then◌else◌, length, ltb, none, not, some, ℕ, ◌%◌, ◌*◌, ◌++◌, ◌+◌, ◌/◌,
  ◌==◌, ◌^◌, ◌∷◌, nat_eq, string_eq,
}
use vscreen.Rtsp.Health.{Fraction}
use vscreen.Rtsp.Transport.Video.{RtpVideoStream}

-- The sender report of a stream; `elapsed` is in milliseconds.
unfoldable pub build_sender_report : RtpVideoStream → ℕ → List ℕ
build_sender_report s elapsed =
    let ntp_secs = (s.start_ntp + elapsed / 1000) % 2 ^ 32 in
    let ntp_frac = (elapsed % 1000) * 4294967 in
    2 * 2 ^ 6 ∷ 200 ∷ u16_be 6
    ++ u32_be s.ssrc
    ++ u32_be ntp_secs
    ++ u32_be ntp_frac
    ++ u32_be s.timestamp
    ++ u32_be (s.health.packets_sent % 2 ^ 32)
    ++ u32_be (s.health.bytes_sent % 2 ^ 32)

pub record ReceiverReport : Type 0 where
  pub ssrc : ℕ
  pub fraction_lost : Fraction
  pub cumulative_lost : ℕ
  pub jitter_ms : Fraction

-- `data[i]`, where the length is known to be enough.
abbrev byte_at : List ℕ → ℕ → ℕ
byte_at bytes i = elim (get_elem? bytes i) [ none ↦ 0 | some b ↦ b ]

unfoldable pub parse_receiver_report_with_clock : List ℕ → ℕ → Option ReceiverReport
parse_receiver_report_with_clock bytes clock_rate =
    let at = byte_at bytes in
    if ltb (length bytes) 32
    then none
    else if not (at 1 == 201)
    then none
    else some (record {
      ssrc = from_u32_be (at 8) (at 9) (at 10) (at 11);
      fraction_lost = record { num = at 12; den = 256 };
      cumulative_lost = at 13 * 65536 + at 14 * 256 + at 15;
      jitter_ms = record {
        num = from_u32_be (at 20) (at 21) (at 22) (at 23) * 1000;
        den = clock_rate;
      };
    })
