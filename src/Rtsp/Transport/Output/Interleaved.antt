-- ===== src/Rtsp/Transport/Output/Interleaved.antt =====
-- What a client reads from an RTSP connection that carries RTP and RTCP packets.
use vscreen.Base.Bytes.{from_u16_be}
use vscreen.Base.{
  All, Bool, List, [], ap, arith, drop, drop-append, false, if◌then◌else◌, length, map, refl, suc,
  take, take-append, true, zero, ℕ, ◌%◌, ◌++◌, ◌/◌, ◌<◌, ◌==◌, ◌^◌, ◌∙◌, ◌∷◌, ◌≡◌, ◌≤◌, nat_eq,
  string_eq,
}
use vscreen.Rtsp.Transport.Output.{
  RtpOutput, Sent, frame, send_rtp, send_rtcp, tcp, datagram, written,
}

-- The client's reader after RFC 2326, 10.12: `$`, a channel, a length, and that many bytes.
unfoldable pub deframe : ℕ → List ℕ → List (ℕ × List ℕ)
deframe (suc fuel) (m ∷ channel ∷ a ∷ b ∷ rest) =
    let later = deframe fuel (drop (from_u16_be a b) rest) in
    if m == 0x24 then (channel, take (from_u16_be a b) rest) ∷ later else []
deframe fuel bytes = []

-- The bytes of a send on the connection, and of a list of sends, where `true` stands for RTCP.
abbrev pub bytes_of : Sent → List ℕ
bytes_of (datagram addr bytes) = bytes
bytes_of (written bytes) = bytes

abbrev send : RtpOutput → Bool × List ℕ → Sent
send output (true, packet) = send_rtcp output packet
send output (false, packet) = send_rtp output packet

unfoldable pub stream_of : RtpOutput → List (Bool × List ℕ) → List ℕ
stream_of output [] = []
stream_of output (p ∷ ps) = bytes_of (send output p) ++ stream_of output ps

abbrev pub on_channel : ℕ → ℕ → Bool × List ℕ → ℕ × List ℕ
on_channel rtp rtcp (true, packet) = (rtcp, packet)
on_channel rtp rtcp (false, packet) = (rtp, packet)

deframe-frame :
    (fuel channel : ℕ) (packet rest : List ℕ)
    → length packet < 2 ^ 16
    → deframe (suc fuel) (frame channel packet ++ rest) ≡ (channel, packet) ∷ deframe fuel rest
unfolding deframe frame
deframe-frame fuel channel packet rest h =
    rw (measured, take-append packet rest, drop-append packet rest) refl
  where
    measured :
        from_u16_be (length packet % 2 ^ 16 / 256 % 256) (length packet % 2 ^ 16 % 256)
        ≡ length packet
    measured = omega arith

-- The packets, RTP and RTCP in any order, that are sent on one connection, each shorter than
-- 2^16 bytes, are what a client reads there: the same packets in the same order, each on the
-- channel of its kind.
deframe-stream_of :
    (rtp rtcp fuel : ℕ) (ps : List (Bool × List ℕ))
    → All (λ p. length p.1 < 2 ^ 16) ps
    → length ps ≤ fuel
    → deframe fuel (stream_of (tcp rtp rtcp) ps) ≡ map (on_channel rtp rtcp) ps
unfolding stream_of send_rtp send_rtcp
deframe-stream_of rtp rtcp zero [] h le = unfold deframe in refl
deframe-stream_of rtp rtcp (suc fuel) [] h le = unfold deframe in refl
deframe-stream_of rtp rtcp zero (p ∷ ps) h le = absurd (omega arith)
deframe-stream_of rtp rtcp (suc fuel) ((true, p) ∷ ps) h le =
    deframe-frame fuel rtcp p _ h.0
    ∙ ap (λ later. (rtcp, p) ∷ later) (deframe-stream_of rtp rtcp fuel ps h.1 (omega arith))
deframe-stream_of rtp rtcp (suc fuel) ((false, p) ∷ ps) h le =
    deframe-frame fuel rtp p _ h.0
    ∙ ap (λ later. (rtp, p) ∷ later) (deframe-stream_of rtp rtcp fuel ps h.1 (omega arith))
