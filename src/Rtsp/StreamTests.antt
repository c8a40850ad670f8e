-- ===== src/Rtsp/StreamTests.antt =====
-- Streams and sessions on concrete inputs, and the theorems at inputs that meet their hypotheses.
use vscreen.Base.Assoc.{get}
use vscreen.Base.Text.{text_eq, codes}
use vscreen.Base.{[], arith, false, none, refl, some, true, ◌∷◌, ◌≡◌, nat_eq, string_eq}
use vscreen.Rtsp.H264
use vscreen.Rtsp.Health.{StreamHealth, healthy}
use vscreen.Rtsp.Quality.{standard}
use vscreen.Rtsp.Watchdog.{watchdog_round}
use vscreen.Rtsp.Watchdog.Rounds.{get-watchdog_round, Watched}
use vscreen.Rtsp.Session.{RtspSession, add_interleaved_track, paused, ready, video}
use vscreen.Rtsp.Session.States.{does_pause, does_play, does_touch, run, run-state, ends_playing}
use vscreen.Rtsp.Session.Manager.{RtspSessionManager}
use vscreen.Rtsp.Session.Manager.Reaping.{IsMap}
use vscreen.Rtsp.Transport.Output.{tcp, written}
use vscreen.Rtsp.Transport.Reports.{parse_receiver_report_with_clock}
use vscreen.Rtsp.Transport.Reports.RoundTrip.{
  parse_receiver_report_with_clock-receiver_report, receiver_report,
}
use vscreen.Rtsp.Transport.Video.{RtpVideoStream, by_h264, packetize_video, send_frame}
use vscreen.Rtsp.Transport.Video.Frames.{Answers, send_frame-Answers}

abbrev quiet : StreamHealth
quiet = record {
  state = healthy;
  packets_sent = 3;
  bytes_sent = 90;
  client_packet_loss = record { num = 200; den = 256 };
  client_jitter_ms = record { num = 0; den = 1 };
  last_rtp_sent = some 100;
  last_rtcp_received = none;
  created_at = 0;
  consecutive_stale = 4;
}

abbrev stream : RtpVideoStream
stream = record {
  output = tcp 0 1;
  ssrc = 7;
  sequence_number = 0xFFFF;
  timestamp = 90;
  timestamp_increment = 3000;
  packetizer = by_h264 (record { mtu = 1200 });
  payload_type = 96;
  health = quiet;
  start_time = 0;
  start_ntp = 5;
}

two_packets :
    elim (send_frame (λ i. true) 9 stream (0 ∷ 0 ∷ 1 ∷ 0x67 ∷ 0 ∷ 0 ∷ 1 ∷ 0x65 ∷ []) true) [
      | none ↦ []
      | some d ↦ d.sent
    ]
    ≡ written
        (0x24 ∷ 0 ∷ 0 ∷ 13 ∷ 128 ∷ 96 ∷ 255 ∷ 255 ∷ 0 ∷ 0 ∷ 0 ∷ 90 ∷ 0 ∷ 0 ∷ 0 ∷ 7 ∷ 0x67 ∷ [])
      ∷ written (0x24 ∷ 0 ∷ 0 ∷ 13 ∷ 128 ∷ 224 ∷ 0 ∷ 0 ∷ 0 ∷ 0 ∷ 0 ∷ 90 ∷ 0 ∷ 0 ∷ 0 ∷ 7 ∷ 0x65 ∷ [])
      ∷ []
unfolding send_frame H264.packetize
two_packets = refl

send_frame-Answers_example :
    Answers stream
      (packetize_video stream.packetizer (0 ∷ 0 ∷ 1 ∷ 0x65 ∷ 9 ∷ []) true).0
      (send_frame (λ i. true) 9 stream (0 ∷ 0 ∷ 1 ∷ 0x65 ∷ 9 ∷ []) true)
send_frame-Answers_example =
    send_frame-Answers (λ i. true) 9 stream (0 ∷ 0 ∷ 1 ∷ 0x65 ∷ 9 ∷ []) true
      (omega arith, omega arith, omega arith, omega arith) (omega arith)

parse_receiver_report_with_clock-receiver_report_example :
    parse_receiver_report_with_clock (receiver_report 1 9 128 70000 0 450 0 0) 90000
    ≡ some (record {
      ssrc = 9;
      fraction_lost = record { num = 128; den = 256 };
      cumulative_lost = 70000;
      jitter_ms = record { num = 450000; den = 90000 };
    })
parse_receiver_report_with_clock-receiver_report_example =
    parse_receiver_report_with_clock-receiver_report 1 9 128 70000 0 450 0 0 90000 (omega arith)
      (omega arith) (omega arith)

abbrev session : RtspSession
session = record {
  id = (codes "s");
  instance_id = (codes "dev");
  state = ready;
  client_addr = record { ip = "10.0.0.1"; port = 4000 };
  media_config = record { has_video = true; has_audio = false };
  quality = standard;
  tracks = [];
  created_at = 0;
  last_activity = 0;
  is_cancelled = false;
}

run-state_example :
    (run 5 session (does_pause ∷ does_play ∷ does_touch ∷ does_pause ∷ [])).state ≡ paused
unfolding ends_playing
run-state_example = run-state 5 session (does_pause ∷ does_play ∷ does_touch ∷ does_pause ∷ []) refl

abbrev manager : RtspSessionManager
manager = record {
  sessions =
      ((codes "s"), add_interleaved_track 1 session 0 video 0 1) ∷ ((codes "t"), session) ∷ [];
  timeout = 1000;
  is_cancelled = false;
}

get-watchdog_round_example :
    Watched 5000 1000 (some session) (get (codes "t") (watchdog_round 5000 manager).0.sessions)
get-watchdog_round_example =
    get-watchdog_round 5000 manager (codes "t") (unfold IsMap in (refl, (refl, tt)))
