-- ===== src/Rtsp/Transport/Video.antt =====
-- crates/vscreen-rtsp/src/transport.rs: the video stream of a session.
pub mod Packets
pub mod Frames
use mathlib.Core.Option
use vscreen.Base.Bytes.{u16_be, u32_be}
use vscreen.Base.{
  Bool, List, Option, [], false, if◌then◌else◌, length, ltb, map, suc, true, ℕ, ◌%◌, ◌*◌, ◌++◌, ◌+◌,
  ◌-◌, ◌/◌, ◌==◌, ◌^◌, ◌∷◌, nat_eq, string_eq,
}
use vscreen.Core.Config.{VideoCodec, vp9, h264}
use vscreen.Rtsp.Health.{StreamHealth, default, record_packet_sent}
use vscreen.Rtsp.H264
use vscreen.Rtsp.Vp9
use vscreen.Rtsp.Transport.Output.{RtpOutput, Sent, send_rtp}

abbrev pub vp9_payload_type : ℕ
vp9_payload_type = 96

abbrev pub h264_payload_type : ℕ
h264_payload_type = 96

abbrev pub vp9_clock_rate : ℕ
vp9_clock_rate = 90000

pub data VideoPacketizer : Type 0 where
  by_vp9 : Vp9.Vp9Packetizer → VideoPacketizer
  by_h264 : H264.H264Packetizer → VideoPacketizer

unfoldable pub packetize_video :
    VideoPacketizer → List ℕ → Bool → Option (List (List ℕ)) × VideoPacketizer
packetize_video (by_vp9 p) bytes is_keyframe =
    let r = Vp9.packetize p bytes is_keyframe in (r.0, by_vp9 r.1)
packetize_video (by_h264 p) bytes is_keyframe = (H264.packetize p bytes, by_h264 p)

unfoldable pub resize : VideoPacketizer → ℕ → ℕ → VideoPacketizer
resize (by_vp9 p) width height = by_vp9 (Vp9.set_resolution p width height)
resize (by_h264 p) width height = by_h264 p

unfoldable pub make_packetizer : VideoCodec → ℕ → ℕ → VideoPacketizer × ℕ
make_packetizer vp9 width height = (by_vp9 (Vp9.new width height), vp9_payload_type)
make_packetizer h264 width height = (by_h264 H264.new, h264_payload_type)

pub record RtpVideoStream : Type 0 where
  pub output : RtpOutput
  pub ssrc : ℕ
  pub sequence_number : ℕ
  pub timestamp : ℕ
  pub timestamp_increment : ℕ
  pub packetizer : VideoPacketizer
  pub payload_type : ℕ
  pub health : StreamHealth
  pub start_time : ℕ
  pub start_ntp : ℕ

-- `new` and `new_interleaved`; the SSRC, the two clocks and the output are given.
unfoldable pub new_stream : RtpOutput → ℕ → ℕ → ℕ → ℕ → ℕ → ℕ → VideoCodec → RtpVideoStream
unfolding make_packetizer
new_stream output ssrc now ntp width height fps codec =
    let made = make_packetizer codec width height in
    record {
      output = output;
      ssrc = ssrc;
      sequence_number = 0;
      timestamp = 0;
      timestamp_increment = if ltb 0 fps then vp9_clock_rate / fps else 3000;
      packetizer = made.0;
      payload_type = made.1;
      health = default now;
      start_time = now;
      start_ntp = ntp;
    }

abbrev pub marker_bit : Bool → ℕ
marker_bit true = 0x80
marker_bit false = 0

-- `m_bit | payload_type` is the sum, since payload types are below 128.
unfoldable pub build_video_rtp_packet : RtpVideoStream → List ℕ → Bool → List ℕ
build_video_rtp_packet s payload marker =
    2 * 2 ^ 6 ∷ (marker_bit marker + s.payload_type) ∷ u16_be s.sequence_number
    ++ u32_be s.timestamp
    ++ u32_be s.ssrc
    ++ payload

pub record Delivery : Type 0 where
  pub is_done : Bool
  pub sent : List Sent
  pub stream : RtpVideoStream

-- The loop of `send_frame`; `io i` says whether the network takes packet `i`.
unfoldable pub send_loop : (ℕ → Bool) → ℕ → ℕ → ℕ → RtpVideoStream → List (List ℕ) → Delivery
unfolding build_video_rtp_packet record_packet_sent send_rtp
send_loop io now num_packets i s [] = record { is_done = true; sent = []; stream = s }
send_loop io now num_packets i s (payload ∷ payloads) =
    let packet = build_video_rtp_packet s payload (i == num_packets - 1) in
    let next = record s {
      health = record_packet_sent now s.health (length packet);
      sequence_number = (s.sequence_number + 1) % 2 ^ 16;
    } in
    let later = send_loop io now num_packets (suc i) next payloads in
    if io i
    then record {
      is_done = later.is_done;
      sent = send_rtp s.output packet ∷ later.sent;
      stream = later.stream;
    }
    else record { is_done = false; sent = []; stream = s }

-- After the loop the timestamp moves on; an error returns before that.
abbrev pub advance : Delivery → Delivery
advance d =
    if d.is_done
    then record d {
      stream = record (d.stream) {
        timestamp = (d.stream.timestamp + d.stream.timestamp_increment) % 2 ^ 32;
      };
    }
    else d

-- `none` only where the packetizer has no result.
unfoldable pub send_frame : (ℕ → Bool) → ℕ → RtpVideoStream → List ℕ → Bool → Option Delivery
unfolding send_loop packetize_video
send_frame io now s bytes is_keyframe =
    let r = packetize_video s.packetizer bytes is_keyframe in
    Option.map
      (λ payloads.
        advance (send_loop io now (length payloads) 0 (record s { packetizer = r.1 }) payloads))
      r.0

unfoldable pub set_resolution : RtpVideoStream → ℕ → ℕ → RtpVideoStream
set_resolution s width height = record s { packetizer = resize s.packetizer width height }
