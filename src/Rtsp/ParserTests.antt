-- ===== src/Rtsp/ParserTests.antt =====
-- Requests, headers and URLs of parser.rs's own tests.
use vscreen.Base.Text.{
  codes, text_eq, contains, find_text, parse_number, split, split_once, strip_prefix, trim,
}
use vscreen.Base.{[], arith, none, refl, some, true, ◌++◌, ◌∷◌, ◌≡◌, nat_eq, string_eq}
use vscreen.Rtsp.Response.{crlf}
use vscreen.Rtsp.Parser.{ok, parse, play}
use vscreen.Rtsp.Parser.TransportHeader.{
  parse_transport, tcp_interleaved, udp_unicast, format_response,
}
use vscreen.Rtsp.Parser.TransportHeader.RoundTrip.{parse_transport-format_response}
use vscreen.Rtsp.Parser.Url.{extract_instance_id, extract_track_id}

one_port : parse_transport (codes "RTP/AVP;unicast;client_port=6000") ≡ ok (udp_unicast 6000 6001)
unfolding parse_transport contains split trim parse_number
one_port = refl

two_channels :
    parse_transport (codes "RTP/AVP/TCP;unicast;interleaved=2-3") ≡ ok (tcp_interleaved 2 3)
unfolding parse_transport contains split strip_prefix trim parse_number
two_channels = refl

track_of : extract_track_id (codes "rtsp://h:8554/stream/dev/trackID=1?video=0") ≡ some 1
unfolding extract_track_id strip_prefix split find_text parse_number
track_of = refl

instance_of : extract_instance_id (codes "rtsp://h:8554/stream/dev?tier=low") ≡ some (codes "dev")
unfolding extract_instance_id strip_prefix split find_text
instance_of = refl

request :
    parse
      (λ s. true)
      (codes "PLAY rtsp://h/stream/dev RTSP/1.0"
        ++ crlf
        ++ codes "CSeq: 4"
        ++ crlf
        ++ codes "Session: abc123;timeout=60"
        ++ crlf
        ++ crlf)
    ≡ ok (record {
      method = play;
      url = codes "rtsp://h/stream/dev";
      cseq = 4;
      session = some (codes "abc123");
      headers = (codes "cseq", codes "4") ∷ (codes "session", codes "abc123;timeout=60") ∷ [];
      body = none;
    })
unfolding parse find_text split trim split_once parse_number
request = refl

parse_transport-format_response_example :
    parse_transport (format_response (udp_unicast 6000 6001) 9000 9001) ≡ ok (udp_unicast 6000 6001)
parse_transport-format_response_example =
    parse_transport-format_response (udp_unicast 6000 6001) 9000 9001 (omega arith, omega arith)
