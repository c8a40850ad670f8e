-- ===== src/Rtsp/ConnectionTests.antt =====
-- Connections of server.rs on concrete bytes.
use vscreen.Base.Text.{
  strip_prefix, parse_number, trim, find_text, split, split_once, Text, codes, text_eq, show,
}
use vscreen.Base.{
  List, Option, [], arith, false, is_some, map, none, refl, some, true, ℕ, ◌*◌, ◌++◌, ◌∷◌, ◌≡◌,
  nat_eq, string_eq,
}
use vscreen.Base.Text.{strip_prefix, parse_number, trim, find_text, split, split_once}
use vscreen.Rtsp.Connection.{Connection, Decoding, read_message, request, serve}
use vscreen.Rtsp.Connection.Framing.{
  IsMessage, head, read_message-wire, received, requests, wire, RequestLine, plain, sized, texts,
}
use vscreen.Rtsp.Connection.Progress.{serve_ends}
use vscreen.Rtsp.Reply.{Environment, InstanceLookup}
use vscreen.Rtsp.Handler.{handle_options, handle_request}
use vscreen.Rtsp.Response.{crlf, header}
use vscreen.Rtsp.Session.Manager
use vscreen.Rtsp.Transport.Output.{SocketAddr}
use vscreen.Core.Config.{h264}

abbrev decoding : Decoding
decoding = record { is_utf8 = λ s. true; lossy = λ s. s }

abbrev options_request : Text
options_request = head (codes "OPTIONS * RTSP/1.0" ∷ codes "CSeq: 9" ∷ []) ++ crlf

abbrev lookup : InstanceLookup
lookup = record {
  instance_exists = λ id. true;
  subscribe_audio = λ id. true;
  subscribe_video = λ id. true;
  video_resolution = λ id. none;
  video_framerate = λ id. none;
  video_codec = λ id. h264;
}

abbrev env : ℕ → Environment
env n = record {
  now = n;
  new_id = codes "s1";
  port_pair = none;
  next_task = 0;
  server_ip = record { text = codes "127.0.0.1"; is_ipv6 = false };
}

abbrev peer : SocketAddr
peer = record { ip = "127.0.0.1"; port = 4000 }

abbrev opened : Connection
opened = record { manager = Manager.new; session_id = none; written = [] }

abbrev statuses : Option Connection → List ℕ
statuses none = []
statuses (some c) = map (λ r. r.status) c.written

-- A frame, a request, a line that is none, and half a request.
answered :
    statuses (
      serve decoding lookup env peer 9 opened (
        (0x24 ∷ 1 ∷ 0 ∷ 2 ∷ 7 ∷ 7 ∷ [])
        ++ (options_request ++ (codes "hello" ++ (crlf ++ (crlf ++ codes "OPT"))))))
    ≡ 200 ∷ 400 ∷ []
unfolding serve Manager.new header handle_options handle_request strip_prefix split find_text
    split_once trim parse_number
answered = refl

abbrev two_lines : List RequestLine
two_lines = plain (codes "PLAY u RTSP/1.0") ∷ sized (codes "Content-Length:") (codes " ") 2 ∷ []

read_message-wire_example :
    read_message decoding (wire (requests two_lines (codes "hi")) ++ codes "$")
    ≡ request (head (texts two_lines) ++ (crlf ++ codes "hi")) (codes "$")
unfolding received vscreen.Base.Text.show
read_message-wire_example =
    read_message-wire decoding (requests two_lines (codes "hi")) (codes "$") (
      unfold IsMessage in
      (
        ((refl, refl, refl), ((refl, refl, refl), tt)),
        (λ b. ground (arith, b.1), ((refl, refl, omega arith), tt)),
        refl,
        refl,
        refl,
        omega arith,
      ))

serve_ends_example : is_some (serve decoding lookup env peer 100 opened options_request) ≡ true
serve_ends_example = serve_ends decoding lookup env peer 100 opened options_request (omega arith)
