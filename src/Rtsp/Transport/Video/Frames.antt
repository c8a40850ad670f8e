-- ===== src/Rtsp/Transport/Video/Frames.antt =====
-- `send_frame` as a whole, for both packetizers.
use vscreen.Base.{
  Bool, Bool-cases, List, Option, arith, if◌then◌else◌, inl, inr, leb, length, map, none, refl,
  some, take, true, ℕ, ◌%◌, ◌+◌, ◌-◌, ◌^◌, ◌≡◌, ◌≤◌, nat_eq, string_eq,
}
use vscreen.Rtsp.H264
use vscreen.Rtsp.H264.Bounds.{Bounded, packetize_nals-Bounded}
use vscreen.Rtsp.Vp9.Receiver.{Carries}
use vscreen.Rtsp.Vp9.Frames.{packetize-cases}
use vscreen.Rtsp.Transport.Video.{
  Delivery, RtpVideoStream, VideoPacketizer, advance, by_h264, by_vp9, packetize_video, send_frame,
  send_loop,
}
use vscreen.Rtsp.Transport.Video.Packets.{Delivers, IsSized, expected, received, send_loop-Delivers}

-- The same after `send_frame`, where the timestamp moves on if all packets are sent.
abbrev pub DeliversFrame : RtpVideoStream → List (List ℕ) → Delivery → Type 0
DeliversFrame s payloads d =
    (map received d.sent ≡ take (length d.sent) (expected s s.sequence_number payloads))
    × (d.is_done ≡ leb (length payloads) (length d.sent))
    × (length d.sent ≤ length payloads)
    × (d.stream.sequence_number ≡ (s.sequence_number + length d.sent) % 2 ^ 16)
    × (d.stream.timestamp
        ≡ (if d.is_done then (s.timestamp + s.timestamp_increment) % 2 ^ 32 else s.timestamp))

Delivers-advance :
    (s : RtpVideoStream) (ps : List (List ℕ)) (d : Delivery)
    → Delivers s ps d
    → DeliversFrame s ps (advance d)
Delivers-advance s ps d h = elim (Bool-cases d.is_done) [
  | inl done ↦ rw done (h.0, ground (arith, h.1), h.2, h.3, ground (arith, h.4, h.5))
  | inr stopped ↦ rw stopped (h.0, ground (arith, h.1), h.2, h.3, ground (arith, h.4))
]

-- A result of the packetizer is there and is delivered.
abbrev pub Answers : RtpVideoStream → Option (List (List ℕ)) → Option Delivery → Type 0
Answers s (some payloads) (some d) = DeliversFrame s payloads d
Answers s o later = ⊥

-- The MTU is at least the 100 bytes that the constructors give.
abbrev pub IsReady : VideoPacketizer → Type 0
IsReady (by_vp9 p) = 100 ≤ p.mtu
IsReady (by_h264 p) = 100 ≤ p.mtu

Carries-some :
    (n : ℕ) (frame : List ℕ) (o : Option (List (List ℕ)))
    → Carries n true frame o
    → (ps : List (List ℕ)) × (o ≡ some ps)
Carries-some n frame none h = absurd h
Carries-some n frame (some ps) h = (ps, refl)

Bounded-some :
    (n : ℕ) (o : Option (List (List ℕ))) → Bounded n o → (ps : List (List ℕ)) × (o ≡ some ps)
Bounded-some n none h = absurd h
Bounded-some n (some ps) h = (ps, refl)

packetize_video-some :
    (p : VideoPacketizer) (bytes : List ℕ) (k : Bool)
    → IsReady p
    → (ps : List (List ℕ)) × ((packetize_video p bytes k).0 ≡ some ps)
unfolding packetize_video
packetize_video-some (by_vp9 p) bytes k h =
    Carries-some p.mtu bytes _ (packetize-cases p bytes k (omega arith))
packetize_video-some (by_h264 p) bytes k h =
    unfold H264.packetize in
    Bounded-some (p.mtu - 12) _
      (packetize_nals-Bounded (p.mtu - 12) (H264.split_annex_b bytes) (omega arith))

-- On a stream whose fields keep to their sizes and whose packetizer has an MTU of at least 100,
-- whatever the network takes, `send_frame` ends. A receiver that parses the packets sent gets the
-- first payloads of the frame in order, with sequence numbers that count up modulo 2 ^ 16, the same
-- timestamp and SSRC, and the marker on the frame's last packet only. The call succeeds just when
-- all packets are sent, and then only moves the timestamp on by the increment; the sequence number
-- moves on by the packets sent.
pub send_frame-Answers :
    (io : ℕ → Bool) (now : ℕ) (s : RtpVideoStream) (bytes : List ℕ) (is_keyframe : Bool)
    → IsSized s
    → IsReady s.packetizer
    → Answers s
        (packetize_video s.packetizer bytes is_keyframe).0
        (send_frame io now s bytes is_keyframe)
unfolding send_frame expected
send_frame-Answers io now s bytes k h r =
    let found = packetize_video-some s.packetizer bytes k r in
    rw found.1 (
      Delivers-advance s found.0
        (send_loop io now (length found.0) 0
          (record s { packetizer = (packetize_video s.packetizer bytes k).1 }) found.0)
        (send_loop-Delivers io now (length found.0) 0
          (record s { packetizer = (packetize_video s.packetizer bytes k).1 }) found.0 h
          (omega arith)))
