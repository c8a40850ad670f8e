-- ===== src/Rtsp/Transport/Output.antt =====
-- crates/vscreen-rtsp/src/transport.rs: the delivery of RTP and RTCP packets by datagrams or
-- interleaved in the RTSP connection (RFC 2326, 10.12). What a send hands to the network is a
-- value `Sent`; whether the network takes it is an argument of the callers.
pub mod Interleaved
use vscreen.Base.Bytes.{u16_be}
use vscreen.Base.{
  List, Option, String, if◌then◌else◌, leb, length, none, some, take, ℕ, ◌%◌, ◌++◌, ◌^◌, ◌∷◌,
  nat_eq, string_eq,
}

pub record SocketAddr : Type 0 where
  pub ip : String
  pub port : ℕ

-- The client's RTP and RTCP address, or the RTP and RTCP channel.
pub data RtpOutput : Type 0 where
  udp : SocketAddr → SocketAddr → RtpOutput
  tcp : ℕ → ℕ → RtpOutput

pub data Sent : Type 0 where
  datagram : SocketAddr → List ℕ → Sent
  written : List ℕ → Sent

-- The frame of `Tcp`: `$`, the channel, the length as u16, the packet.
unfoldable pub frame : ℕ → List ℕ → List ℕ
frame channel bytes = 0x24 ∷ channel ∷ u16_be (length bytes % 2 ^ 16) ++ bytes

unfoldable pub send_rtp : RtpOutput → List ℕ → Sent
unfolding frame
send_rtp (udp rtp rtcp) bytes = datagram rtp bytes
send_rtp (tcp rtp rtcp) bytes = written (frame rtp bytes)

unfoldable pub send_rtcp : RtpOutput → List ℕ → Sent
unfolding frame
send_rtcp (udp rtp rtcp) bytes = datagram rtcp bytes
send_rtcp (tcp rtp rtcp) bytes = written (frame rtcp bytes)

-- `received` is what `try_recv` of the socket has, at most 512 bytes of it.
unfoldable pub try_recv_rtcp : RtpOutput → Option (List ℕ) → Option (List ℕ)
try_recv_rtcp (udp rtp rtcp) none = none
try_recv_rtcp (udp rtp rtcp) (some bytes) =
    if leb 8 (length (take 512 bytes)) then some (take 512 bytes) else none
try_recv_rtcp (tcp rtp rtcp) received = none
