-- ===== src/Rtsp/Transport/Audio.antt =====
-- crates/vscreen-rtsp/src/transport.rs: the Opus audio stream of a session.
use vscreen.Base.Bytes.{u16_be, u32_be}
use vscreen.Base.{
  Bool, List, Option, false, length, none, some, true, ℕ, ◌%◌, ◌*◌, ◌++◌, ◌+◌, ◌^◌, ◌∷◌, nat_eq,
  string_eq,
}
use vscreen.Rtsp.Health.{StreamHealth, default, record_packet_sent}
use vscreen.Rtsp.Transport.Output.{RtpOutput, Sent, send_rtp}

abbrev pub opus_payload_type : ℕ
opus_payload_type = 111

-- 20 ms at 48 kHz.
abbrev pub opus_frame_duration_samples : ℕ
opus_frame_duration_samples = 960

pub record RtpUnicastStream : Type 0 where
  pub output : RtpOutput
  pub ssrc : ℕ
  pub sequence_number : ℕ
  pub timestamp : ℕ
  pub health : StreamHealth
  pub start_time : ℕ
  pub start_ntp : ℕ

-- `new` and `new_interleaved`; the SSRC, the two clocks and the output are given.
unfoldable pub new : RtpOutput → ℕ → ℕ → ℕ → RtpUnicastStream
new output ssrc now ntp = record {
  output = output;
  ssrc = ssrc;
  sequence_number = 0;
  timestamp = 0;
  health = default now;
  start_time = now;
  start_ntp = ntp;
}

unfoldable pub build_rtp_packet : RtpUnicastStream → List ℕ → List ℕ
build_rtp_packet s payload =
    2 * 2 ^ 6 ∷ opus_payload_type ∷ u16_be s.sequence_number
    ++ u32_be s.timestamp
    ++ u32_be s.ssrc
    ++ payload

-- `is_taken` says whether the network takes the packet; if not, the stream stays as it is.
unfoldable pub send_opus : Bool → ℕ → RtpUnicastStream → List ℕ → Option Sent × RtpUnicastStream
unfolding build_rtp_packet record_packet_sent send_rtp
send_opus false now s opus = (none, s)
send_opus true now s opus =
    let packet = build_rtp_packet s opus in
    (
      some (send_rtp s.output packet),
      record s {
        sequence_number = (s.sequence_number + 1) % 2 ^ 16;
        timestamp = (s.timestamp + opus_frame_duration_samples) % 2 ^ 32;
        health = record_packet_sent now s.health (length packet);
      },
    )
