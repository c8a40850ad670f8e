-- ===== src/Rtsp/Transport/Video/Packets.antt =====
-- What a receiver gets from the loop of `send_frame`.
use vscreen.Base.Bytes.{from_u16_be, from_u32_be, from_u16_be-u16_be, from_u32_be-u32_be}
use vscreen.Base.{
  Bool, Bool-cases, List, Option, [], ap₂, arith, drop, false, inl, inr, is_empty, leb, length, ltb,
  map, none, refl, some, suc, take, true, ℕ, ◌%◌, ◌+◌, ◌-◌, ◌/◌, ◌<◌, ◌==◌, ◌^◌, ◌∙◌, ◌∷◌, ◌≡◌, ◌≤◌,
  nat_eq, string_eq,
}
use vscreen.Rtsp.Health.{record_packet_sent}
use vscreen.Rtsp.Transport.Output.{Sent, datagram, send_rtp, written, RtpOutput, frame, tcp, udp}
use vscreen.Rtsp.Transport.Video.{
  RtpVideoStream, build_video_rtp_packet, Delivery, marker_bit, send_loop,
}

pub record Received : Type 0 where
  pub version : ℕ
  pub marker : Bool
  pub payload_type : ℕ
  pub sequence_number : ℕ
  pub timestamp : ℕ
  pub ssrc : ℕ
  pub payload : List ℕ

-- The fields of an RTP packet with a header of 12 bytes, after RFC 3550.
unfoldable pub parse_rtp : List ℕ → Option Received
parse_rtp (v ∷ m ∷ s0 ∷ s1 ∷ t0 ∷ t1 ∷ t2 ∷ t3 ∷ c0 ∷ c1 ∷ c2 ∷ c3 ∷ payload) = some (record {
  version = v / 64;
  marker = ltb 127 m;
  payload_type = m % 128;
  sequence_number = from_u16_be s0 s1;
  timestamp = from_u32_be t0 t1 t2 t3;
  ssrc = from_u32_be c0 c1 c2 c3;
  payload = payload;
})
parse_rtp bytes = none

-- The RTP packet in what a send hands over.
unfoldable pub received : Sent → Option Received
unfolding parse_rtp
received (datagram addr bytes) = parse_rtp bytes
received (written bytes) = parse_rtp (drop 4 bytes)

-- What a receiver is to get for the payloads of a frame: numbers that count up modulo 2 ^ 16, one
-- timestamp, and the marker on the last.
unfoldable pub expected : RtpVideoStream → ℕ → List (List ℕ) → List (Option Received)
expected s seq [] = []
expected s seq (p ∷ ps) =
    some (record {
      version = 2;
      marker = is_empty ps;
      payload_type = s.payload_type;
      sequence_number = seq;
      timestamp = s.timestamp;
      ssrc = s.ssrc;
      payload = p;
    })
    ∷ expected s ((seq + 1) % 2 ^ 16) ps

-- The fields keep to the sizes of their types, and the payload type to its 7 bits.
abbrev pub IsSized : RtpVideoStream → Type 0
IsSized s =
    (s.sequence_number < 2 ^ 16)
    × (s.timestamp < 2 ^ 32)
    × (s.ssrc < 2 ^ 32)
    × (s.payload_type < 2 ^ 7)

received-send_rtp :
    (out : RtpOutput) (packet : List ℕ) → received (send_rtp out packet) ≡ parse_rtp packet
unfolding received send_rtp frame
received-send_rtp (udp rtp rtcp) packet = refl
received-send_rtp (tcp rtp rtcp) packet = refl

marker_back : (b : Bool) (pt : ℕ) → pt < 2 ^ 7 → ltb 127 (marker_bit b + pt) ≡ b
marker_back true pt h = ground arith
marker_back false pt h = ground arith

payload_type_back : (b : Bool) (pt : ℕ) → pt < 2 ^ 7 → (marker_bit b + pt) % 128 ≡ pt
payload_type_back true pt h = omega arith
payload_type_back false pt h = omega arith

parse_rtp-build_video_rtp_packet :
    (s : RtpVideoStream) (p : List ℕ) (b : Bool)
    → IsSized s
    → parse_rtp (build_video_rtp_packet s p b)
      ≡ some (record {
        version = 2;
        marker = b;
        payload_type = s.payload_type;
        sequence_number = s.sequence_number;
        timestamp = s.timestamp;
        ssrc = s.ssrc;
        payload = p;
      })
unfolding parse_rtp build_video_rtp_packet
parse_rtp-build_video_rtp_packet s p b h =
    rw
      (
        marker_back b s.payload_type h.3,
        payload_type_back b s.payload_type h.3,
        from_u16_be-u16_be s.sequence_number h.0,
        from_u32_be-u32_be s.timestamp h.1,
        from_u32_be-u32_be s.ssrc h.2,
      )
      refl

-- What a delivery of payloads gives, whether or not the network takes all.
abbrev pub Delivers : RtpVideoStream → List (List ℕ) → Delivery → Type 0
Delivers s payloads d =
    (map received d.sent ≡ take (length d.sent) (expected s s.sequence_number payloads))
    × (d.is_done ≡ leb (length payloads) (length d.sent))
    × (length d.sent ≤ length payloads)
    × (d.stream.sequence_number ≡ (s.sequence_number + length d.sent) % 2 ^ 16)
    × (d.stream.timestamp ≡ s.timestamp)
    × (d.stream.timestamp_increment ≡ s.timestamp_increment)

last_lem : (i n : ℕ) (ps : List (List ℕ)) → n ≡ i + suc (length ps) → (i == n - 1) ≡ is_empty ps
last_lem i n [] e = ground arith
last_lem i n (p ∷ ps) e = ground arith

-- The stream after a packet.
abbrev after : ℕ → RtpVideoStream → List ℕ → RtpVideoStream
after now s packet = record s {
  health = record_packet_sent now s.health (length packet);
  sequence_number = (s.sequence_number + 1) % 2 ^ 16;
}

Delivers-step :
    (now : ℕ) (s : RtpVideoStream) (p : List ℕ) (ps : List (List ℕ)) (d : Delivery)
    → IsSized s
    → Delivers (after now s (build_video_rtp_packet s p (is_empty ps))) ps d
    → Delivers s (p ∷ ps) (record {
      is_done = d.is_done;
      sent = send_rtp s.output (build_video_rtp_packet s p (is_empty ps)) ∷ d.sent;
      stream = d.stream;
    })
unfolding expected
Delivers-step now s p ps d h later = (
  ap₂ ◌∷◌ (received-send_rtp s.output _ ∙ parse_rtp-build_video_rtp_packet s p (is_empty ps) h)
      later.0,
  ground (arith, later.1),
  omega (arith, later.2),
  omega (arith, later.3),
  later.4,
  later.5,
)

pub send_loop-Delivers :
    (io : ℕ → Bool) (now n i : ℕ) (s : RtpVideoStream) (payloads : List (List ℕ))
    → IsSized s
    → n ≡ i + length payloads
    → Delivers s payloads (send_loop io now n i s payloads)
unfolding send_loop
send_loop-Delivers io now n i s [] h e =
    (unfold expected in refl, refl, omega arith, omega arith, refl, refl)
send_loop-Delivers io now n i s (p ∷ ps) h e = elim (Bool-cases (io i)) [
  | inl taken ↦
      rw (taken, last_lem i n ps e)
        (Delivers-step now s p ps
          (send_loop io now n (suc i) (after now s (build_video_rtp_packet s p (is_empty ps))) ps) h
          (send_loop-Delivers io now n (suc i)
            (after now s (build_video_rtp_packet s p (is_empty ps))) ps (omega arith, h.1, h.2, h.3)
            (omega arith)))
  | inr refused ↦
      rw refused (unfold expected in refl, ground arith, omega arith, omega arith, refl, refl)
]
